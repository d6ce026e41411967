-- ===== src/Network/Dump/Lines.antt =====
-- A dump ends, and shows every byte but the line breaks.
use dss_vdc_venta.Prelude.{
  ℕ, ◌+◌, ◌≤◌, ◌<◌, ◌≡◌, Bool, true, false, ◌&&◌, Option, some, List, [], ◌∷◌, ◌++◌, map, length,
  ◌==◌,
}
use dss_vdc_venta.CString.{Bytes}
use dss_vdc_venta.Network.Dump.{shown, dump_chars, DumpLine, width_of}

-- The bytes without the pairs 0D0A.
abbrev pub without_breaks : Bytes → Bytes
without_breaks (c ∷ d ∷ s) = elim (c == 13 && d == 10) [
  | true ↦ without_breaks s
  | false ↦ c ∷ without_breaks (d ∷ s)
]
without_breaks s = s

abbrev pub to_show : Bool → Bytes → Bytes
to_show true s = without_breaks s
to_show false s = s

-- What one line does with the bytes `s`: it shows the first of them, up to the bytes that it leaves.
record Shows (nohex : Bool) (width : ℕ) (s : Bytes) : Type 0 where
  together :
      (dump_chars nohex width s).0 ++ map shown (to_show nohex (dump_chars nohex width s).1)
      ≡ map shown (to_show nohex s)
  fits : length (dump_chars nohex width s).0 ≤ width
  left : length (dump_chars nohex width s).1 ≤ length s

-- All that the lines show, one line behind the other.
abbrev pub all_chars : List DumpLine → Bytes
all_chars [] = []
all_chars (l ∷ lines) = l.chars ++ all_chars lines

-- The lines begin where the lines before them have ended, and none is too wide.
abbrev pub AreInOrder : Bool → ℕ → ℕ → List DumpLine → Type 0
AreInOrder nohex size i [] = Unit
AreInOrder nohex size i (l ∷ lines) =
    (i ≤ l.offset)
    × (l.offset < size)
    × (length l.chars ≤ width_of nohex)
    × AreInOrder nohex size (l.offset + 1) lines

abbrev Covers : Bool → ℕ → ℕ → Bytes → Option (List DumpLine) → Type 0
Covers nohex size i s o =
    (lines : List DumpLine) × (o ≡ some lines)
    × (all_chars lines ≡ map shown (to_show nohex s))
    × ((j : ℕ) → j ≤ i → AreInOrder nohex size j lines)
