-- ===== src/Tests/Vdc.antt =====
-- The callbacks.
use dss_vdc_venta.Network.Parse.Unlocking.{IsOurs}
use dss_vdc_venta.Prelude.{
  pos, some, ◌≡◌, true, arith, ◌∷◌, [], refl, none, List, length, inl, All, ◌↔◌,
}
use dss_vdc_venta.Tests.Fixtures.{
  scene_5, humifier, device, globals, env, json, env-IsAnswering, lib, lib-IsUsable, address,
  hum_sensor, no_sensor,
}
use dss_vdc_venta.Types.{Globals, main_thread, zero_scene}
use dss_vdc_venta.CString.{Bytes, codes, strcasecmp_eq}
use dss_vdc_venta.Config.Read.{read_config, regular, returned}
use dss_vdc_venta.Network.Safe.{Advances, data_request}
use dss_vdc_venta.Network.Commands.{venta_get_data, venta_set_mode_sleep}
use dss_vdc_venta.Scenes.Configured.{FitsBuffer-in_range}
use dss_vdc_venta.Vdc.CallScene.{run_scene, vdc_callscene_cb}
use dss_vdc_venta.Vdc.FromStart.{callscene_from_start}
use dss_vdc_venta.Vdc.FanSteps.{after_buttons, run_scene_sleep_and_fan}
use dss_vdc_venta.Vdc.Ping.{vdc_ping_cb, IsKnown, vdc_ping_cb_answers}
use dss_vdc_venta.Vdc.SetProp.{
  Property, named, wildcard, Effect, vdc_setprop_cb, err_not_implemented,
}
use dss_vdc_venta.Vdc.Zone.{
  Succeeds, vdc_setprop_cb_zone, vdc_setprop_cb-depth, last_zone, is_written,
}

callscene_from_start_at_input :
    (g' : Globals) × (read_config lib regular (some 0) true (λ id. codes "D1") globals
      ≡ some (returned (pos 0), g'))
    × (g'' : Globals) × (vdc_callscene_cb env json (codes "d1") (pos 5) g' ≡ some (tt, g''))
    × Advances address g' g''
callscene_from_start_at_input =
    callscene_from_start lib env json 0 address address (λ id. codes "D1") globals lib-IsUsable
      (omega arith) env-IsAnswering (pos 5) (codes "d1")
      (FitsBuffer-in_range (pos 5) (omega arith) (omega arith))

abbrev read_once : Globals
read_once = record globals {
  humifier = record humifier {
    sensor_values = record hum_sensor { value = pos 4; last_query = pos 100 } ∷ no_sensor ∷ [];
  };
  current_values = record zero_scene { mode_sleep = pos 2; fan = pos 3; current_humidity = pos 4 };
  posts = data_request address ∷ [];
}

abbrev read_twice : Globals
read_twice = record read_once {
  humifier = record humifier {
    sensor_values =
        record hum_sensor { value = pos 4; last_value = pos 4; last_query = pos 100 }
        ∷ no_sensor
        ∷ [];
  };
  posts = data_request address ∷ data_request address ∷ [];
}

first_read : venta_get_data env json main_thread globals ≡ some (pos 0, read_once)
unfolding venta_get_data
first_read = refl

sleep_is_on : venta_set_mode_sleep env json main_thread true read_once ≡ some (none, read_twice)
unfolding venta_set_mode_sleep
sleep_is_on = refl

-- The scene asks for level 2 and the humifier is at level 3: three steps down.
run_scene_sleep_and_fan_example :
    run_scene env json (some scene_5) globals
    ≡ some (tt, after_buttons address (pos 4 ∷ pos 4 ∷ pos 4 ∷ []) read_twice)
run_scene_sleep_and_fan_example =
    run_scene_sleep_and_fan env json address (omega arith) scene_5 globals read_once read_twice
      (pos 0) none refl refl first_read sleep_is_on refl

vdc_ping_cb_answers_example :
    (pongs : List Bytes) × (vdc_ping_cb (codes "d1") globals ≡ some pongs)
    × (IsKnown (codes "d1") globals device → length pongs ≡ 1)
    × (¬ (IsKnown (codes "d1") globals device) → pongs ≡ [])
    × All (λ p. strcasecmp_eq (codes "d1") p ≡ true) pongs
vdc_ping_cb_answers_example = vdc_ping_cb_answers (codes "d1") globals device refl

abbrev zone_then_other : List Property
zone_then_other =
    record { name = named (codes "zoneID"); uint = some 7 }
    ∷ record { name = wildcard; uint = none }
    ∷ []

for_vdc : strcasecmp_eq (codes "V1") (codes "v1") ≡ true
unfolding strcasecmp_eq
for_vdc = refl

vdc_setprop_cb_zone_example :
    (effects : List Effect) × (vdc_setprop_cb (codes "v1") zone_then_other globals
      ≡ some (record globals { default_zone_id = last_zone (pos 65534) zone_then_other }, effects))
    × ((is_written effects ≡ true) ↔ Succeeds err_not_implemented zone_then_other)
vdc_setprop_cb_zone_example = vdc_setprop_cb_zone (codes "v1") zone_then_other globals for_vdc

vdc_setprop_cb-depth_example :
    (g' : Globals) × (effects : List Effect) × (vdc_setprop_cb (codes "D1") zone_then_other globals
      ≡ some (g', effects))
    × (g'.network_mutex.depth ≡ 0)
    × IsOurs g'.network_mutex
vdc_setprop_cb-depth_example =
    vdc_setprop_cb-depth (codes "D1") zone_then_other globals device (inl refl) refl
