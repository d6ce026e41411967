-- ===== src/Scenes/Configured.antt =====
-- Calling a scene: the text test agrees with the table, so the search of the table ends inside it.
use dss_vdc_venta.Prelude.{
  ℕ, ◌+◌, ◌≡◌, refl, ◌≤◌, true, false, none, some, List, [], ◌∷◌, ◌++◌, ℤ, pos, negsuc, arith, All,
  ◌==ℤ◌, ==ℤ_iff, length, length-append, ◌≤ℤ◌, dec_lt, ◌≢◌, Bool-cases, inl, inr, leb,
}
use dss_vdc_venta.CString.{print_int, digits}
use dss_vdc_venta.CString.Decimal.{length-digits_one, length-digits_two, length-digits_three}
use dss_vdc_venta.Types.{Scene, zero_scene, VentaHumifier}
use dss_vdc_venta.Scenes.{scene_text, is_scene_configured, scene_from, get_scene_configuration}
use dss_vdc_venta.Scenes.Loaded.{has_scene, IsLoaded, strstr-scene_text}

-- Scene numbers whose text fits the buffer.
abbrev pub FitsBuffer : ℤ → Type 0
FitsBuffer scene = length (scene_text scene) + 1 ≤ 5

-- Exactly the numbers from -9 to 99 fit.
pub FitsBuffer-in_range : (scene : ℤ) → negsuc 8 ≤ℤ scene → scene ≤ℤ pos 99 → FitsBuffer scene
unfolding print_int
FitsBuffer-in_range (pos n) lo hi = elim (dec_lt n 10) [
  | yes p ↦ omega (arith, length-append {0} (digits n) (b'-' ∷ []), length-digits_one n p)
  | no p ↦ omega (
    arith,
    length-append {0} (digits n) (b'-' ∷ []),
    length-digits_two n (omega arith) (omega arith),
  )
]
FitsBuffer-in_range (negsuc n) lo hi =
    omega (
      arith,
      length-append {0} (digits (n + 1)) (b'-' ∷ []),
      length-digits_one (n + 1) (omega arith),
    )

module _ (h : VentaHumifier) (loaded free : List Scene) (l : IsLoaded h loaded free) where
  -- On a loaded table, a scene number that fits the buffer tests as configured exactly if a
  -- configured slot carries it.
  pub is_scene_configured-has_scene :
      (scene : ℤ) → FitsBuffer scene → is_scene_configured scene h ≡ some (has_scene scene loaded)
  unfolding is_scene_configured
  is_scene_configured-has_scene scene fits =
      simp l.listed (ground (arith, strstr-scene_text scene loaded l.numbered))

-- What the search hands back for a slot.
abbrev pub scene_data : Scene → Scene
scene_data s = record zero_scene {
  fan = s.fan;
  mode_automatic = s.mode_automatic;
  mode_sleep = s.mode_sleep;
}

-- The first of the slots with the scene number.
pub data IsFirst (scene : ℤ) (s : Scene) : List Scene → Type 0 where
  here : {slots : List Scene} → s.ds_id ≡ scene → IsFirst scene s (s ∷ slots)
  later :
      {t : Scene} {slots : List Scene}
      → t.ds_id ≢ scene
      → IsFirst scene s slots
      → IsFirst scene s (t ∷ slots)

scene_from-IsFirst :
    (scene : ℤ) (loaded free : List Scene)
    → has_scene scene loaded ≡ true
    → (s : Scene) × IsFirst scene s loaded
      × (scene_from scene (loaded ++ free) ≡ some (scene_data s))
unfolding scene_from
scene_from-IsFirst scene [] free e = cc
scene_from-IsFirst scene (s ∷ slots) free e = elim (Bool-cases (s.ds_id ==ℤ scene)) [
  | inl same ↦ (s, here ((==ℤ_iff s.ds_id scene).0 same), ground arith)
  | inr other ↦
      let (t, first, found) = scene_from-IsFirst scene slots free (ground arith) in
      (t, later (λ q. cc ((==ℤ_iff s.ds_id scene).1 q)) first, ground arith)
]

scene_from-none :
    (scene : ℤ) (slots : List Scene) → has_scene scene slots ≡ false → scene_from scene slots ≡ none
unfolding scene_from
scene_from-none scene [] e = refl
scene_from-none scene (s ∷ slots) e = ground (arith, scene_from-none scene slots)

module _ (h : VentaHumifier) (loaded free : List Scene) (l : IsLoaded h loaded free) where
  -- On a loaded table, a scene number that fits the buffer and tests as configured is found by the
  -- unbounded search inside the array: the search returns the fan and mode values of the first
  -- configured slot with that number.
  pub get_scene_configuration_found :
      (scene : ℤ)
      → FitsBuffer scene
      → is_scene_configured scene h ≡ some true
      → (s : Scene) × IsFirst scene s loaded
        × (get_scene_configuration true scene h ≡ some (some (scene_data s)))
  unfolding get_scene_configuration
  get_scene_configuration_found scene fits e =
      let (s, first, found) =
        scene_from-IsFirst scene loaded free
          (ground (arith, is_scene_configured-has_scene h loaded free l scene fits)) in
      (s, first, simp l.split (rw found refl))

FitsBuffer_large : (n : ℕ) → 100 ≤ n → leb (length (scene_text (pos n)) + 1) 5 ≡ false
unfolding print_int
FitsBuffer_large n h =
    ground (arith, length-append {0} (digits n) (b'-' ∷ []), length-digits_three n h)

-- Asking for any scene number of three digits or more overflows the five-byte buffer, whatever the
-- table holds.
pub is_scene_configured_overflow :
    (n : ℕ) (h : VentaHumifier) → 100 ≤ n → is_scene_configured (pos n) h ≡ none
unfolding is_scene_configured
is_scene_configured_overflow n h p = rw (FitsBuffer_large n p) refl

scene_from-unused :
    (scene : ℤ) (loaded free : List Scene)
    → has_scene scene loaded ≡ false
    → scene ≢ negsuc 0
    → All (λ s. s.ds_id ≡ negsuc 0) free
    → scene_from scene (loaded ++ free) ≡ none
unfolding scene_from
scene_from-unused scene [] [] e ne u = refl
scene_from-unused scene [] (s ∷ free) e ne u =
    ground (arith, ==ℤ_iff s.ds_id scene, scene_from-unused scene [] free e ne u.1)
scene_from-unused scene (s ∷ slots) free e ne u =
    ground (arith, scene_from-unused scene slots free (ground arith) ne u)
