-- ===== src/Tests/GetProp.antt =====
-- Properties that the server reads.
use dss_vdc_venta.Prelude.{ℕ, true, some, List, [], ◌∷◌, ◌≡◌, refl, pos, arith}
use dss_vdc_venta.CString.{codes, digits}
use dss_vdc_venta.Types.{SensorValue}
use dss_vdc_venta.Tests.Fixtures.{globals, hum_sensor, no_sensor}
use dss_vdc_venta.Main.Push.{Report, pushed, push_sensor_data}
use dss_vdc_venta.Vdc.SetProp.{name_error, wildcard, named}
use dss_vdc_venta.Vdc.GetProp.Reply.{Query, leaf, group, text, uint, double, int}
use dss_vdc_venta.Vdc.GetProp.Sensors.{sensor_descriptions, sensor_settings, sensor_states}
use dss_vdc_venta.Vdc.GetProp.Indices.{
  Lists, described, settings_of, state_of, sensor_indices_agree, sensor_states_one,
}
use dss_vdc_venta.Vdc.GetProp.Callback.{send_response, unlock_mutex, vdc_getprop_cb}

abbrev pub query : Query
query = record {
  names = named (codes "type") ∷ wildcard ∷ named (codes "primaryGroup") ∷ [];
  first_element = name_error;
  new_ok = λ k. true;
  add_null = λ key. [];
  now = λ k. pos 100;
  hostname = codes "dss";
  id_as_int = pos 7;
  icon16 = [];
  icon48 = [];
}

abbrev second_sensor : SensorValue
second_sensor = record hum_sensor { value_name = some (codes "Temp"); value = pos 21 }

sensor_indices_agree_example :
    let values = hum_sensor ∷ second_sensor ∷ no_sensor ∷ [] in
    (slots : List SensorValue) × (reports : List Report) × (push_sensor_data 3
        (λ j. true)
        (λ j. pos 100)
        values
      ≡ pushed slots reports)
    × Lists
        (sensor_descriptions query (some (codes "Venta")) values 1)
        (described (codes "Venta"))
        (hum_sensor ∷ second_sensor ∷ [])
        reports
    × Lists (sensor_settings query values 1) settings_of (hum_sensor ∷ second_sensor ∷ []) reports
    × Lists
        (sensor_states query values 1)
        (state_of (pos 100))
        (hum_sensor ∷ second_sensor ∷ [])
        reports
sensor_indices_agree_example =
    sensor_indices_agree query (λ k. refl) (hum_sensor ∷ second_sensor ∷ []) no_sensor []
      (refl, (refl, tt)) refl (codes "Venta") 1 3 (λ j. pos 100)
      ((codes "Hum", refl), ((codes "Temp", refl), tt)) refl (omega arith)

sensor_states_one_example :
    (k' : ℕ) × (sensor_states
        (record query { first_element = named (codes "1") })
        (hum_sensor ∷ second_sensor ∷ no_sensor ∷ [])
        1
      ≡ some (
        (
          codes "1",
          group (
              (codes "value", double (pos 21))
              ∷ (codes "age", int (pos 10))
              ∷ (codes "error", int (pos 0))
              ∷ []),
        )
            ∷ [],
        k',
      ))
unfolding digits
sensor_states_one_example =
    sensor_states_one (record query { first_element = named (codes "1") }) (λ k. refl)
      (hum_sensor ∷ second_sensor ∷ []) no_sensor [] (refl, (refl, tt)) refl 1 1 (omega arith) refl

device_asked :
    vdc_getprop_cb query (codes "d1") globals
    ≡ some (
      globals,
      unlock_mutex
          ∷ send_response (
              (codes "type", leaf (text (codes "vDSD")))
              ∷ (codes "primaryGroup", leaf (uint 8))
              ∷ [])
          ∷ [],
    )
unfolding vdc_getprop_cb
device_asked = refl
