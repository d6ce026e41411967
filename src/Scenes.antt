-- ===== src/Scenes.antt =====
-- The scene table: `is_scene_configured` and `get_scene_configuration` of venta/network.c and
-- `save_scene` of venta/configuration.c.
pub mod Loaded
pub mod Configured
pub mod Save
use dss_vdc_venta.Prelude.{
  ℕ, suc, ◌+◌, Bool, true, false, Option, none, some, List, [], ◌∷◌, ◌++◌, ℤ, pos, negsuc, not, leb,
  length, ◌==ℤ◌, if◌then◌else◌, guard, ◌>>=◌, ◌>>◌,
}
use dss_vdc_venta.CString.{Bytes, print_int, strstr}
use dss_vdc_venta.Types.{Scene, zero_scene, VentaHumifier}

-- sprintf(scene_str, "-%d-", scene)
abbrev pub scene_text : ℤ → Bytes
scene_text scene = b'-' ∷ (print_int scene ++ b'-' ∷ [])

-- `scene_str` has five bytes, one of them for the NUL.
unfoldable pub is_scene_configured : ℤ → VentaHumifier → Option Bool
unfolding print_int strstr
is_scene_configured scene humifier = do
  guard (leb (length (scene_text scene) + 1) 5)
  configured ← humifier.configured_scenes
  some (strstr configured (scene_text scene))

-- The loop of `get_scene_configuration` from one slot on: it has no bound, and reads past the array
-- where no slot has the scene.
unfoldable pub scene_from : ℤ → List Scene → Option Scene
scene_from scene [] = none
scene_from scene (s ∷ slots) =
    if s.ds_id ==ℤ scene
    then some (record zero_scene {
      fan = s.fan;
      mode_automatic = s.mode_automatic;
      mode_sleep = s.mode_sleep;
    })
    else scene_from scene slots

-- `some none` is a null pointer, where `malloc` fails.
unfoldable pub get_scene_configuration : Bool → ℤ → VentaHumifier → Option (Option Scene)
unfolding scene_from
get_scene_configuration allocated scene humifier =
    if allocated
    then (do found ← scene_from scene humifier.scenes; some (some found))
    else some none

-- The loop of `save_scene` over the slots, up to MAX_SCENES of them.
unfoldable pub save_from : ℤ → List Scene → List Scene
save_from scene [] = []
save_from scene (s ∷ slots) =
    if not (s.ds_id ==ℤ negsuc 0)
    then (if s.ds_id ==ℤ scene
        then record s { ds_id = scene } ∷ slots
        else s ∷ save_from scene slots)
    else record s { ds_id = scene } ∷ slots

unfoldable pub save_scene : ℤ → VentaHumifier → VentaHumifier
unfolding save_from
save_scene scene humifier = record humifier { scenes = save_from scene humifier.scenes }
