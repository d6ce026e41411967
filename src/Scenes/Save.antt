-- ===== src/Scenes/Save.antt =====
-- What `save_scene` does to a table of used slots and free ones behind them.
use dss_vdc_venta.Prelude.{
  List, ℤ, All, ◌∷◌, ◌≡◌, ◌≢◌, if◌then◌else◌, arith, negsuc, ◌++◌, false, some, [], refl, ==ℤ_iff,
  append-nil, true, Bool, ap, ◌∙◌,
}
use dss_vdc_venta.Types.{Scene, VentaHumifier}
use dss_vdc_venta.Scenes.{save_from, save_scene, is_scene_configured, ℤ}
use dss_vdc_venta.Scenes.Loaded.{has_scene, IsLoaded, IsNonneg}
use dss_vdc_venta.Scenes.Configured.{FitsBuffer, is_scene_configured-has_scene}

abbrev pub IsUsed : List Scene → Type 0
IsUsed slots = All (λ s. s.ds_id ≢ negsuc 0) slots

-- The scene table after the scene number is saved: a number that is there stays where it is, a new
-- one goes to the first free slot, and is dropped where no slot is free.
abbrev pub saved : ℤ → List Scene → List Scene → List Scene
saved scene used [] = used
saved scene used (s ∷ free) =
    if has_scene scene used then used ++ s ∷ free else used ++ record s { ds_id = scene } ∷ free

save_same : (scene : ℤ) (s : Scene) → s.ds_id ≡ scene → record s { ds_id = scene } ≡ s
save_same scene s e = ground arith

save_from-saved :
    (scene : ℤ) (used free : List Scene)
    → IsUsed used
    → All (λ s. s.ds_id ≡ negsuc 0) free
    → save_from scene (used ++ free) ≡ saved scene used free
unfolding save_from
save_from-saved scene [] [] u f = refl
save_from-saved scene [] (s ∷ free) u f = ground (arith, ==ℤ_iff s.ds_id (negsuc 0))
save_from-saved scene (t ∷ used) [] u f = ground (
  arith,
  ==ℤ_iff t.ds_id (negsuc 0),
  ==ℤ_iff t.ds_id scene,
  save_same scene t,
  save_from-saved scene used [] u.1 f,
  append-nil used,
)
save_from-saved scene (t ∷ used) (s ∷ free) u f = ground (
  arith,
  ==ℤ_iff t.ds_id (negsuc 0),
  ==ℤ_iff t.ds_id scene,
  save_same scene t,
  save_from-saved scene used (s ∷ free) u.1 f,
)

-- On a table of used slots and free slots behind them, saving a scene number keeps the slot that
-- has it, or fills the first free slot, or changes nothing where no slot is free; the text of the
-- configured scenes stays as it is in each case.
pub save_scene-saved :
    (scene : ℤ) (h : VentaHumifier) (used free : List Scene)
    → h.scenes ≡ used ++ free
    → IsUsed used
    → All (λ s. s.ds_id ≡ negsuc 0) free
    → ((save_scene scene h).scenes ≡ saved scene used free)
      × ((save_scene scene h).configured_scenes ≡ h.configured_scenes)
unfolding save_scene
save_scene-saved scene h used free e u f = (rw e (save_from-saved scene used free u f), refl)

has_scene-append :
    (scene : ℤ) (used rest : List Scene)
    → has_scene scene rest ≡ true
    → has_scene scene (used ++ rest) ≡ true
has_scene-append scene [] rest h = h
has_scene-append scene (s ∷ used) rest h = ground (arith, has_scene-append scene used rest h)

not_minus_one : (i : ℤ) → IsNonneg i → i ≢ negsuc 0
not_minus_one i (n, e) = λ f. cc (e, f)

numbered-IsUsed : (loaded : List Scene) → All (λ s. IsNonneg s.ds_id) loaded → IsUsed loaded
numbered-IsUsed [] n = tt
numbered-IsUsed (s ∷ loaded) n = (not_minus_one s.ds_id n.0, numbered-IsUsed loaded n.1)

still_absent :
    (scene : ℤ) (h : VentaHumifier) (loaded free : List Scene)
    → IsLoaded h loaded free
    → FitsBuffer scene
    → has_scene scene loaded ≡ false
    → is_scene_configured scene (save_scene scene h) ≡ some false
unfolding save_scene
still_absent scene h loaded free l fits absent =
    unfold is_scene_configured in
    rw (← absent, ← is_scene_configured-has_scene h loaded free l scene fits) refl

-- On a loaded table without the scene number and with a free slot, a number that fits the buffer is
-- entered in the first free slot when it is saved, and in no other, but it still tests as not
-- configured, so that it cannot be called.
pub save_scene_not_callable :
    (scene : ℤ) (h : VentaHumifier) (loaded : List Scene) (s : Scene) (free : List Scene)
    → IsLoaded h loaded (s ∷ free)
    → FitsBuffer scene
    → has_scene scene loaded ≡ false
    → ((save_scene scene h).scenes ≡ loaded ++ record s { ds_id = scene } ∷ free)
      × (has_scene scene (save_scene scene h).scenes ≡ true)
      × (is_scene_configured scene (save_scene scene h) ≡ some false)
save_scene_not_callable scene h loaded s free l fits absent =
    let (entered, same) =
      save_scene-saved scene h loaded (s ∷ free) l.split (numbered-IsUsed loaded l.numbered)
        l.unused in
    let there : (save_scene scene h).scenes ≡ loaded ++ record s { ds_id = scene } ∷ free =
      entered
      ∙ ap
          (λ (b : Bool).
            if b then loaded ++ s ∷ free else loaded ++ record s { ds_id = scene } ∷ free)
          absent in
    (
      there,
      ap (has_scene scene) there
          ∙ has_scene-append scene loaded (record s { ds_id = scene } ∷ free) (found s free),
      still_absent scene h loaded (s ∷ free) l fits absent,
    )
  where
    found :
        (s : Scene) (free : List Scene) → has_scene scene (record s { ds_id = scene } ∷ free) ≡ true
    found s free = ground (arith, ==ℤ_iff scene scene)
