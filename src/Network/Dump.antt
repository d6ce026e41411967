-- ===== src/Network/Dump.antt =====
-- `DebugDump` and `DebugCallback` of venta/network.c, for libcurl's traffic at high debug levels.
-- Numbers are left as numbers where the source prints them.
pub mod Lines
use dss_vdc_venta.Prelude.{
  ℕ, zero, suc, ◌+◌, ◌-◌, Bool, true, false, ◌&&◌, Option, none, some, List, [], ◌∷◌, leb, ltb,
  ◌==◌, length, if◌then◌else◌, ◌>>=◌,
}
use dss_vdc_venta.CString.{Bytes, codes}

abbrev pub shown : ℕ → ℕ
shown c = if leb 32 c && ltb c 128 then c else b'.'

-- 0D0A at the front.
abbrev pub is_break : Bytes → Bool
is_break (c ∷ d ∷ s) = c == 13 && d == 10
is_break _ = false

abbrev pub drop_two : Bytes → Bytes
drop_two (c ∷ d ∷ s) = s
drop_two _ = []

-- The cells "%02x ", or three blanks behind the end.
abbrev pub hex_cells : ℕ → Bytes → List (Option ℕ)
hex_cells zero s = []
hex_cells (suc width) [] = none ∷ hex_cells width []
hex_cells (suc width) (c ∷ s) = some c ∷ hex_cells width s

-- The inner loop, with the columns that are left: what is printed, and the bytes behind `i` when the
-- next line begins.
unfoldable pub dump_chars : Bool → ℕ → Bytes → Bytes × Bytes
dump_chars nohex zero s = ([], s)
dump_chars nohex (suc width) [] = ([], [])
dump_chars nohex (suc width) (c ∷ s) = elim (nohex && is_break (c ∷ s)) [
  | true ↦ ([], drop_two (c ∷ s))
  | false ↦ elim (nohex && is_break s) [
    | true ↦ (shown c ∷ [], drop_two s)
    | false ↦ let (chars, rest) = dump_chars nohex width s in (shown c ∷ chars, rest)
  ]
]

pub record DumpLine : Type 0 where
  pub offset : ℕ
  pub hex : List (Option ℕ)
  pub chars : Bytes

abbrev pub width_of : Bool → ℕ
width_of nohex = if nohex then 64 else 16

abbrev pub line_of : Bool → ℕ → Bytes → DumpLine
line_of nohex i s = record {
  offset = i;
  hex = if nohex then [] else hex_cells 16 s;
  chars = (dump_chars nohex (width_of nohex) s).0;
}

-- The outer loop from index `i` on, with the bytes from there; `none` is a loop that is still
-- running when the fuel is used up.
unfoldable pub dump_from : ℕ → Bool → ℕ → Bytes → Option (List DumpLine)
unfolding dump_chars
dump_from fuel nohex i [] = some []
dump_from zero nohex i (c ∷ s) = none
dump_from (suc fuel) nohex i (c ∷ s) = do
  let rest = (dump_chars nohex (width_of nohex) (c ∷ s)).1
  lines ← dump_from fuel nohex (i + (length (c ∷ s) - length rest)) rest
  some (line_of nohex i (c ∷ s) ∷ lines)

pub record Dump : Type 0 where
  pub text : Bytes
  pub size : ℕ
  pub lines : List DumpLine

-- Fuel for one line for each byte is enough.
unfoldable pub debug_dump : Bytes → Bytes → Bool → Option Dump
unfolding dump_from
debug_dump text data_bytes nohex = do
  lines ← dump_from (length data_bytes) nohex 0 data_bytes
  some (record { text = text; size = length data_bytes; lines = lines })

-- curl_infotype
pub data InfoType : Type 0 where
  info_text header_out data_out ssl_data_out header_in data_in ssl_data_in other_info : InfoType

-- What is printed: a text of libcurl, nothing, or a dump without the hex cells (`trace_ascii` is 1).
pub data Output : Type 0 where
  info : Bytes → Output
  silent : Output
  dumped : Option Dump → Output

unfoldable pub debug_callback : InfoType → Bytes → Output
unfolding debug_dump
debug_callback info_text s = info s
debug_callback header_out s = dumped (debug_dump (codes "=> Send header") s true)
debug_callback data_out s = dumped (debug_dump (codes "=> Send data") s true)
debug_callback ssl_data_out s = dumped (debug_dump (codes "=> Send SSL data") s true)
debug_callback header_in s = dumped (debug_dump (codes "<= Recv header") s true)
debug_callback data_in s = dumped (debug_dump (codes "<= Recv data") s true)
debug_callback ssl_data_in s = dumped (debug_dump (codes "<= Recv SSL data") s true)
debug_callback other_info s = silent
