-- ===== src/Scenes/Loaded.antt =====
-- The scene table as the configuration leaves it: a row of configured slots, then free ones, and
-- the text that lists the configured scenes.
use dss_vdc_venta.Prelude.{
  ℕ, ◌≡◌, refl, ◌<◌, Bool, false, ◌||◌, some, List, [], ◌∷◌, ◌++◌, map, ℤ, pos, negsuc, arith, All,
  ◌==ℤ◌, length, ◌∙◌, ◌+◌, sym,
}
use dss_vdc_venta.CString.{Bytes, print_int, digits, strcmp_eq, strstr}
use dss_vdc_venta.Scenes.{scene_text}
use dss_vdc_venta.CString.Decimal.{IsDigit, digits-IsDigit, digits-injective, length-digits_pos}
use dss_vdc_venta.CString.Search.{
  IsField, fields, any_field, strcmp_eq_iff, strcmp_eq_refl, strstr-fields, strstr_double_dash,
}
use dss_vdc_venta.Types.{Scene, VentaHumifier}

abbrev pub scene_fields : List Scene → List Bytes
scene_fields slots = map (λ s. print_int s.ds_id) slots

-- Does one of the slots carry the scene number?
abbrev pub has_scene : ℤ → List Scene → Bool
has_scene scene [] = false
has_scene scene (s ∷ slots) = (s.ds_id ==ℤ scene) || has_scene scene slots

abbrev pub IsNonneg : ℤ → Type 0
IsNonneg i = (n : ℕ) × (i ≡ pos n)

pub record IsLoaded (h : VentaHumifier) (loaded free : List Scene) : Type 0 where
  pub split : h.scenes ≡ loaded ++ free
  pub listed : h.configured_scenes ≡ some (b'-' ∷ fields (scene_fields loaded))
  pub numbered : All (λ s. IsNonneg s.ds_id) loaded
  pub unused : All (λ s. s.ds_id ≡ negsuc 0) free

IsField-digits : (s : Bytes) → All IsDigit s → IsField s
IsField-digits [] h = tt
IsField-digits (c ∷ s) h = (ground arith, IsField-digits s h.1)

pub print_int-IsField : (i : ℤ) → IsNonneg i → IsField (print_int i) × (0 < length (print_int i))
unfolding print_int
print_int-IsField (pos n) h = (IsField-digits _ (digits-IsDigit n), length-digits_pos n)
print_int-IsField (negsuc n) h = absurd (ground (arith, h.1))

-- Two numbers that are not negative are printed alike exactly if they are equal.
print_int-eq :
    (i j : ℤ) → IsNonneg i → IsNonneg j → strcmp_eq (print_int i) (print_int j) ≡ (j ==ℤ i)
unfolding print_int
print_int-eq (pos m) (pos n) h k =
    ground
      (arith, strcmp_eq_iff (digits m) (digits n), digits-injective m n, strcmp_eq_refl (digits m))
print_int-eq (negsuc m) j h k = absurd (ground (arith, h.1))
print_int-eq i (negsuc n) h k = absurd (ground (arith, k.1))

scene_fields-IsField :
    (slots : List Scene)
    → All (λ s. IsNonneg s.ds_id) slots
    → All (λ f. IsField f × (0 < length f)) (scene_fields slots)
scene_fields-IsField [] h = tt
scene_fields-IsField (s ∷ slots) h = (print_int-IsField s.ds_id h.0, scene_fields-IsField slots h.1)

any_field-scene_fields :
    (i : ℤ) (slots : List Scene)
    → IsNonneg i
    → All (λ s. IsNonneg s.ds_id) slots
    → any_field (print_int i) (scene_fields slots) ≡ has_scene i slots
any_field-scene_fields i [] h k = refl
any_field-scene_fields i (s ∷ slots) h k =
    ground (arith, print_int-eq i s.ds_id h k.0, any_field-scene_fields i slots h k.1)

has_scene_negative :
    (n : ℕ) (slots : List Scene)
    → All (λ s. IsNonneg s.ds_id) slots
    → has_scene (negsuc n) slots ≡ false
has_scene_negative n [] k = refl
has_scene_negative n (s ∷ slots) k = ground (arith, has_scene_negative n slots k.1)

All-fields : (fs : List Bytes) → All (λ f. IsField f × (0 < length f)) fs → All IsField fs
All-fields [] h = tt
All-fields (f ∷ fs) h = (h.0.0, All-fields fs h.1)

-- The text search finds a scene number exactly if a configured slot carries it.
pub strstr-scene_text :
    (i : ℤ) (slots : List Scene)
    → All (λ s. IsNonneg s.ds_id) slots
    → strstr (b'-' ∷ fields (scene_fields slots)) (scene_text i) ≡ has_scene i slots
unfolding print_int
strstr-scene_text (pos n) slots k =
    strstr-fields (digits n) (scene_fields slots) (print_int-IsField (pos n) (n, refl)).0
      (All-fields _ (scene_fields-IsField slots k))
    ∙ any_field-scene_fields (pos n) slots (n, refl) k
strstr-scene_text (negsuc n) slots k =
    strstr_double_dash (digits (n + 1) ++ b'-' ∷ []) (scene_fields slots)
      (scene_fields-IsField slots k)
    ∙ sym (has_scene_negative n slots k)
