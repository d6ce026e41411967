-- ===== src/Report.antt =====
-- The messages of venta/util.c. What `vsnprintf` makes of the format, the stamp with the time, and
-- BUFSIZ are parameters. `reportMutex`, which is locked around a message, is left out.
pub mod Escaping
use dss_vdc_venta.Prelude.{
  ℕ, ◌+◌, ◌-◌, Bool, true, false, Option, none, some, List, [], ◌∷◌, ◌++◌, ℤ, leb, ltb, leb_ℤ, ◌&&◌,
  ◌||◌, ◌==◌, length, take, if◌then◌else◌, guard, ◌>>=◌, ◌>>◌, ◌/◌, ◌%◌,
}
use dss_vdc_venta.CString.{Bytes, codes}

-- isprint and isspace in the locale "C", which the program never leaves.
abbrev pub is_print : ℕ → Bool
is_print c = leb 32 c && leb c 126

abbrev pub is_space : ℕ → Bool
is_space c = c == 32 || (leb 9 c && leb c 13)

abbrev pub lower_hex : ℕ → ℕ
lower_hex n = if ltb n 10 then n + 48 else n + 87

-- "\\x%02x" of a signed `char` made unsigned, cut to five bytes: the byte 195 is 0xffffffc3.
unfoldable pub escape : ℕ → Bytes
escape c =
    if ltb c 128
    then b'\\' ∷ b'x' ∷ lower_hex (c / 16) ∷ lower_hex (c % 16) ∷ []
    else b'\\' ∷ b'x' ∷ b'f' ∷ b'f' ∷ b'f' ∷ []

-- `sp[1] == '\0' || sp[2] == '\0'`, for what follows the byte.
abbrev pub is_last_two : Bytes → Bool
is_last_two [] = true
is_last_two (d ∷ []) = true
is_last_two _ = false

-- What one round of the loop appends.
unfoldable pub piece : ℕ → Bytes → Bytes
unfolding escape
piece c rest = if is_print c || (is_space c && is_last_two rest) then c ∷ [] else escape c

-- The loop of `printMessage`: it appends to `buf2` without looking at its size, BUFSIZ.
unfoldable pub print_from : ℕ → Bytes → Bytes → Option Bytes
unfolding piece
print_from bufsiz buf2 [] = some buf2
print_from bufsiz buf2 (c ∷ s) = elim (leb (length (buf2 ++ piece c s) + 1) bufsiz) [
  | false ↦ none
  | true ↦ print_from bufsiz (buf2 ++ piece c s) s
]

-- The text that is put out; `stamp` is the time in brackets.
unfoldable pub print_message : ℕ → Bytes → Bytes → Option Bytes
unfolding print_from
print_message bufsiz stamp buf = print_from bufsiz (take (bufsiz - 1) stamp) buf

-- `vdc_report_extraLevel` with its prefix; `some none` is no output.
unfoldable pub report_up_to : Bytes → ℕ → Bytes → ℤ → ℤ → Bytes → Option (Option Bytes)
unfolding print_message
report_up_to prefix bufsiz stamp errlevel max_errlevel formatted =
    if leb_ℤ errlevel max_errlevel
    then (do
      out ← print_message bufsiz stamp (take (bufsiz - 1) (prefix ++ formatted))
      some (some out))
    else some none

unfoldable pub vdc_report_extra_level : ℕ → Bytes → ℤ → ℤ → Bytes → Option (Option Bytes)
unfolding report_up_to
vdc_report_extra_level = report_up_to (codes "klafs: ")

-- The level is that of `vdc_set_debugLevel`.
unfoldable pub vdc_report : ℕ → Bytes → ℤ → ℤ → Bytes → Option (Option Bytes)
unfolding report_up_to
vdc_report bufsiz stamp debug_level errlevel formatted =
    report_up_to (codes "venta: ") bufsiz stamp errlevel debug_level formatted
