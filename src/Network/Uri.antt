-- ===== src/Network/Uri.antt =====
-- `decodeURIComponent` of venta/network.c. No other code calls it.
use dss_vdc_venta.Prelude.{
  ℕ, All, Bool, if◌then◌else◌, ◌∷◌, ◌<◌, true, leb, ◌==◌, ltb, ◌/◌, ◌≡◌, ◌&&◌, ◌-◌, ◌*◌, ◌+◌, ◌%◌,
  arith, false, [], ◌||◌, refl, List, map, ap, ◌∙◌,
}
use dss_vdc_venta.CString.{Bytes}

-- isxdigit
abbrev pub is_hex : ℕ → Bool
is_hex c = (leb 48 c && leb c 57) || (leb 65 c && leb c 70) || (leb 97 c && leb c 102)

-- `c - '0'`, `c - 'A' + 10` or `c - 'a' + 10`, by the two comparisons of the source.
unfoldable pub nibble : ℕ → ℕ
nibble c = if leb c 57 then c - 48 else if leb c 70 then c - 55 else c - 87

abbrev pub is_escape : ℕ → ℕ → ℕ → Bool
is_escape c a b = c == b'%' && (is_hex a && is_hex b)

-- The bytes that are written to `sDest` before its NUL; its length is the result.
unfoldable pub decode_uri_component : Bytes → Bytes
unfolding nibble
decode_uri_component (c ∷ a ∷ b ∷ s) = elim (is_escape c a b) [
  | true ↦ (16 * nibble a + nibble b) ∷ decode_uri_component s
  | false ↦ c ∷ decode_uri_component (a ∷ b ∷ s)
]
decode_uri_component s = s

-- A digit of a number below 16, upper-case or lower-case.
abbrev pub hex_digit : Bool → ℕ → ℕ
hex_digit upper n = if ltb n 10 then n + 48 else if upper then n + 55 else n + 87

-- A byte as it is, or as a percent sign and two digits, each in either case.
pub data Piece : Type 0 where
  plain : ℕ → Piece
  escaped : Bool → Bool → ℕ → Piece

abbrev pub IsPiece : Piece → Type 0
IsPiece (plain c) = (c == b'%') ≡ false
IsPiece (escaped upper upper' c) = c < 256

abbrev pub byte_of : Piece → ℕ
byte_of (plain c) = c
byte_of (escaped upper upper' c) = c

abbrev pub encode : List Piece → Bytes
encode [] = []
encode (plain c ∷ ps) = c ∷ encode ps
encode (escaped upper upper' c ∷ ps) =
    b'%' ∷ hex_digit upper (c / 16) ∷ hex_digit upper' (c % 16) ∷ encode ps

hex_digit-IsHex : (upper : Bool) (n : ℕ) → n < 16 → is_hex (hex_digit upper n) ≡ true
hex_digit-IsHex true n h = ground arith
hex_digit-IsHex false n h = ground arith

nibble-hex_digit : (upper : Bool) (n : ℕ) → n < 16 → nibble (hex_digit upper n) ≡ n
unfolding nibble
nibble-hex_digit true n h = ground arith
nibble-hex_digit false n h = ground arith

decode_uri_component-plain :
    (c : ℕ) (s : Bytes)
    → (c == b'%') ≡ false
    → decode_uri_component (c ∷ s) ≡ c ∷ decode_uri_component s
unfolding decode_uri_component
decode_uri_component-plain c [] h = refl
decode_uri_component-plain c (a ∷ []) h = refl
decode_uri_component-plain c (a ∷ b ∷ s) h = rw (h, decode_uri_component) refl

-- Bytes that are written as they are, if they are no percent sign, or as percent escapes with digits
-- in either case, are decoded to themselves.
pub decode_uri_component-encode :
    (ps : List Piece) → All IsPiece ps → decode_uri_component (encode ps) ≡ map byte_of ps
unfolding decode_uri_component
decode_uri_component-encode [] h = refl
decode_uri_component-encode (plain c ∷ ps) h =
    decode_uri_component-plain c (encode ps) h.0
    ∙ ap (λ s. c ∷ s) (decode_uri_component-encode ps h.1)
decode_uri_component-encode (escaped upper upper' c ∷ ps) h = ground (
  arith,
  hex_digit-IsHex upper (c / 16) (omega (arith, h.0)),
  hex_digit-IsHex upper' (c % 16) (omega arith),
  nibble-hex_digit upper (c / 16) (omega (arith, h.0)),
  nibble-hex_digit upper' (c % 16) (omega arith),
  decode_uri_component-encode ps h.1,
)
