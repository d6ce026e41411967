-- ===== src/CString.antt =====
-- The functions of C's library on NUL-terminated strings that venta/*.c calls. A string is the
-- list of its bytes before the NUL.
pub mod Decimal
pub mod Search
pub mod Strtol
use dss_vdc_venta.Prelude.{
  ℕ, zero, suc, ◌+◌, ◌-◌, ◌/◌, ◌%◌, String, Bool, true, false, ◌&&◌, ◌||◌, List, [], ◌∷◌, ◌++◌, ltb,
  leb, ◌==◌, if◌then◌else◌, ℤ, pos, negsuc, Option, none, some, take, map,
}
use Prim.Native.Char.{code}

abbrev pub Bytes : Type 0
Bytes = List ℕ

-- The bytes of an ASCII literal.
abbrev pub codes : String → Bytes
codes String.[] = []
codes (String.◌∷◌ c s) = code c ∷ codes s

-- strcmp(a, b) == 0
unfoldable pub strcmp_eq : Bytes → Bytes → Bool
strcmp_eq [] [] = true
strcmp_eq (c ∷ s) (d ∷ t) = c == d && strcmp_eq s t
strcmp_eq _ _ = false

unfoldable pub to_lower : ℕ → ℕ
to_lower c = if leb b'A' c && leb c b'Z' then c + 32 else c

-- strcasecmp(a, b) == 0
unfoldable pub strcasecmp_eq : Bytes → Bytes → Bool
unfolding strcmp_eq to_lower
strcasecmp_eq a b = strcmp_eq (map to_lower a) (map to_lower b)

-- Is the first text a beginning of the second?
unfoldable pub starts_with : Bytes → Bytes → Bool
starts_with [] s = true
starts_with (c ∷ p) [] = false
starts_with (c ∷ p) (d ∷ s) = c == d && starts_with p s

-- strstr(s, needle) != NULL
unfoldable pub strstr : Bytes → Bytes → Bool
unfolding starts_with
strstr [] needle = starts_with needle []
strstr (c ∷ s) needle = starts_with needle (c ∷ s) || strstr s needle

-- The decimal digits of a number; `suc n` rounds are enough for `n`.
unfoldable pub digits_from : ℕ → ℕ → Bytes
digits_from zero n = []
digits_from (suc fuel) n = elim (ltb n 10) [
  | true ↦ (n + 48) ∷ []
  | false ↦ digits_from fuel (n / 10) ++ (n % 10 + 48) ∷ []
]

unfoldable pub digits : ℕ → Bytes
unfolding digits_from
digits n = digits_from (suc n) n

-- sprintf("%d", i)
unfoldable pub print_int : ℤ → Bytes
unfolding digits
print_int (pos n) = digits n
print_int (negsuc n) = b'-' ∷ digits (n + 1)
