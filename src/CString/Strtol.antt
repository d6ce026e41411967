-- ===== src/CString/Strtol.antt =====
-- strtol(s, NULL, 10), and its conversion to `int`, where a `long` has 64 bits.
pub mod Decimal
use dss_vdc_venta.Prelude.{
  ℕ, ◌+◌, ◌-◌, ◌*◌, ◌%◌, ◌^◌, Bool, true, false, ◌&&◌, ◌||◌, List, [], ◌∷◌, ltb, leb, ◌==◌,
  if◌then◌else◌, ℤ, pos, negsuc,
}
use dss_vdc_venta.CString.{Bytes}

-- `int` from the low 32 bits of a number, as gcc converts.
abbrev pub low_int : ℕ → ℤ
low_int n = let w = n % 2 ^ 32 in if ltb w (2 ^ 31) then pos w else negsuc (2 ^ 32 - w - 1)

abbrev pub is_digit : ℕ → Bool
is_digit c = leb 48 c && leb c 57

-- The digits at the front.
unfoldable pub read_digits : ℕ → Bytes → ℕ
read_digits acc [] = acc
read_digits acc (c ∷ s) = elim (is_digit c) [
  | true ↦ read_digits (acc * 10 + (c - 48)) s
  | false ↦ acc
]

unfoldable pub skip_spaces : Bytes → Bytes
skip_spaces [] = []
skip_spaces (c ∷ s) = elim (c == 32 || (leb 9 c && leb c 13)) [
  | true ↦ skip_spaces s
  | false ↦ c ∷ s
]

abbrev pub at_most : ℕ → ℕ → ℕ
at_most bound n = if ltb bound n then bound else n

-- A number that is too large is LONG_MAX, one that is too small LONG_MIN.
unfoldable pub signed : Bytes → ℤ
unfolding read_digits
signed [] = pos 0
signed (c ∷ s) =
    if c == b'-'
    then low_int (2 ^ 64 - at_most (2 ^ 63) (read_digits 0 s))
    else if c == b'+'
    then low_int (at_most (2 ^ 63 - 1) (read_digits 0 s))
    else low_int (at_most (2 ^ 63 - 1) (read_digits 0 (c ∷ s)))

unfoldable pub strtol_int : Bytes → ℤ
unfolding signed skip_spaces
strtol_int s = signed (skip_spaces s)
