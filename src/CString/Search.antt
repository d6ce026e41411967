-- ===== src/CString/Search.antt =====
-- Searching a text for a field between two dashes.
use dss_vdc_venta.Prelude.{
  ◌<◌, ◌≡◌, ◌↔◌, refl, ◌≢◌, Bool, true, false, ◌||◌, List, [], ◌∷◌, ◌++◌, arith, All, length,
}
use dss_vdc_venta.CString.{Bytes, strcmp_eq, starts_with, strstr}

-- Equal texts, and only those, compare as equal.
pub strcmp_eq_iff : (s t : Bytes) → (strcmp_eq s t ≡ true) ↔ (s ≡ t)
unfolding strcmp_eq
strcmp_eq_iff [] [] = ground arith
strcmp_eq_iff [] (d ∷ t) = ground arith
strcmp_eq_iff (c ∷ s) [] = ground arith
strcmp_eq_iff (c ∷ s) (d ∷ t) = ground (arith, strcmp_eq_iff s t)

pub strcmp_eq_refl : (s : Bytes) → strcmp_eq s s ≡ true
strcmp_eq_refl s = (strcmp_eq_iff s s).1 refl

abbrev pub IsField : Bytes → Type 0
IsField s = All (λ c. c ≢ b'-') s

-- The fields, each with a dash behind it.
abbrev pub fields : List Bytes → Bytes
fields [] = []
fields (f ∷ fs) = f ++ (b'-' ∷ fields fs)

abbrev pub any_field : Bytes → List Bytes → Bool
any_field d [] = false
any_field d (f ∷ fs) = strcmp_eq d f || any_field d fs

-- At the start of a field, a field and its dash match exactly if the fields are equal.
starts_with_field :
    (d f rest : Bytes)
    → IsField d
    → IsField f
    → starts_with (d ++ b'-' ∷ []) (f ++ b'-' ∷ rest) ≡ strcmp_eq d f
unfolding starts_with strcmp_eq
starts_with_field [] [] rest p q = refl
starts_with_field [] (c ∷ f) rest p q = ground arith
starts_with_field (c ∷ d) [] rest p q = ground arith
starts_with_field (c ∷ d) (e ∷ f) rest p q = ground (arith, starts_with_field d f rest p.1 q.1)

-- A needle that begins with a dash is not found inside a field.
strstr_skip_field :
    (f needle rest : Bytes)
    → IsField f
    → strstr (f ++ b'-' ∷ rest) (b'-' ∷ needle) ≡ strstr (b'-' ∷ rest) (b'-' ∷ needle)
unfolding strstr starts_with
strstr_skip_field [] needle rest p = refl
strstr_skip_field (c ∷ f) needle rest p = ground (arith, strstr_skip_field f needle rest p.1)

starts_with_nil : (d : Bytes) → starts_with (d ++ b'-' ∷ []) [] ≡ false
unfolding starts_with
starts_with_nil [] = refl
starts_with_nil (c ∷ d) = refl

-- A field between dashes is found in a dashed row of fields exactly if it is one of them.
pub strstr-fields :
    (d : Bytes) (fs : List Bytes)
    → IsField d
    → All IsField fs
    → strstr (b'-' ∷ fields fs) (b'-' ∷ (d ++ b'-' ∷ [])) ≡ any_field d fs
unfolding strstr starts_with
strstr-fields d [] p q = ground (arith, starts_with_nil d)
strstr-fields d (f ∷ fs) p q = ground (
  arith,
  starts_with_field d f (fields fs) p q.0,
  strstr_skip_field f (d ++ b'-' ∷ []) (fields fs) q.0,
  strstr-fields d fs p q.1,
)

-- Two dashes in a row stand nowhere in a row of fields that are not empty.
pub strstr_double_dash :
    (d : Bytes) (fs : List Bytes)
    → All (λ f. IsField f × (0 < length f)) fs
    → strstr (b'-' ∷ fields fs) (b'-' ∷ (b'-' ∷ d)) ≡ false
unfolding strstr starts_with
strstr_double_dash d [] q = refl
strstr_double_dash d ([] ∷ fs) q = absurd (omega (arith, q.0.1))
strstr_double_dash d ((c ∷ f) ∷ fs) q =
    ground
      (arith, strstr_skip_field (c ∷ f) (b'-' ∷ d) (fields fs) q.0.0, strstr_double_dash d fs q.1)
