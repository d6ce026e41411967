-- ===== src/Tests/Scenes.antt =====
-- The scene table and the sensor table.
use dss_vdc_venta.Prelude.{pos, ◌≡◌, arith, some, ◌∷◌, none, true, [], false, refl}
use dss_vdc_venta.Tests.Fixtures.{scene_5, scene_17, free_scene, humifier, humifier-IsLoaded}
use dss_vdc_venta.Types.{Scene}
use dss_vdc_venta.CString.{codes}
use dss_vdc_venta.Scenes.{is_scene_configured, get_scene_configuration, save_scene}
use dss_vdc_venta.Scenes.Configured.{
  FitsBuffer, FitsBuffer-in_range, IsFirst, scene_data, is_scene_configured-has_scene,
  get_scene_configuration_found, is_scene_configured_overflow,
}
use dss_vdc_venta.Scenes.Loaded.{has_scene}
use dss_vdc_venta.Scenes.Save.{save_scene-saved, save_scene_not_callable}
use dss_vdc_venta.Sensors.{find_sensor_value_by_name}
use dss_vdc_venta.Sensors.Find.{find_sensor_value_by_name_lem, Answers}

seventeen_fits : FitsBuffer (pos 17)
seventeen_fits = FitsBuffer-in_range (pos 17) (omega arith) (omega arith)

seventeen_configured : is_scene_configured (pos 17) humifier ≡ some true
unfolding is_scene_configured
seventeen_configured = refl

is_scene_configured-has_scene_example : is_scene_configured (pos 17) humifier ≡ some true
is_scene_configured-has_scene_example =
    is_scene_configured-has_scene humifier (scene_5 ∷ scene_17 ∷ []) (free_scene ∷ [])
      humifier-IsLoaded (pos 17) seventeen_fits

get_scene_configuration_found_example :
    (s : Scene) × IsFirst (pos 17) s (scene_5 ∷ scene_17 ∷ [])
    × (get_scene_configuration true (pos 17) humifier ≡ some (some (scene_data s)))
get_scene_configuration_found_example =
    get_scene_configuration_found humifier (scene_5 ∷ scene_17 ∷ []) (free_scene ∷ [])
      humifier-IsLoaded (pos 17) seventeen_fits seventeen_configured

is_scene_configured_overflow_at_input : is_scene_configured (pos 100) humifier ≡ none
is_scene_configured_overflow_at_input = is_scene_configured_overflow 100 humifier (omega arith)

save_scene-saved_at_input :
    ((save_scene (pos 32) humifier).scenes
      ≡ scene_5 ∷ scene_17 ∷ record free_scene { ds_id = pos 32 } ∷ [])
    × ((save_scene (pos 32) humifier).configured_scenes ≡ humifier.configured_scenes)
save_scene-saved_at_input =
    save_scene-saved (pos 32) humifier (scene_5 ∷ scene_17 ∷ []) (free_scene ∷ []) refl
      ((λ e. cc), ((λ e. cc), tt)) (refl, tt)

save_scene_not_callable_example :
    ((save_scene (pos 32) humifier).scenes
      ≡ scene_5 ∷ scene_17 ∷ record free_scene { ds_id = pos 32 } ∷ [])
    × (has_scene (pos 32) (save_scene (pos 32) humifier).scenes ≡ true)
    × (is_scene_configured (pos 32) (save_scene (pos 32) humifier) ≡ some false)
save_scene_not_callable_example =
    save_scene_not_callable (pos 32) humifier (scene_5 ∷ scene_17 ∷ []) free_scene []
      humifier-IsLoaded (FitsBuffer-in_range (pos 32) (omega arith) (omega arith)) refl

find_sensor_value_by_name_lem_at_input :
    Answers (codes "hum") humifier.sensor_values (find_sensor_value_by_name (codes "hum") humifier)
find_sensor_value_by_name_lem_at_input = find_sensor_value_by_name_lem (codes "hum") humifier

hum_found : find_sensor_value_by_name (codes "hum") humifier ≡ some 0
unfolding find_sensor_value_by_name
hum_found = refl
