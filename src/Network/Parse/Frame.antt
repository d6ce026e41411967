-- ===== src/Network/Parse/Frame.antt =====
-- What parsing an answer leaves as it was.
use dss_vdc_venta.Prelude.{
  pos, List, ℤ, map, Option, ◌≡◌, Bool, ℕ, some, none, ◌∷◌, arith, ◌∙◌, [], refl, zero, Bool-cases,
  inl, Option-cases, inr, ap, sym,
}
use dss_vdc_venta.Network.Json.{JsonC}
use dss_vdc_venta.Network.Parse.{
  store_reading, update_sensors, device_entry, device_entries, entries, parse_text, ℤ, Option, some,
  suc, c_string, unlock,
}
use dss_vdc_venta.Types.{SensorValue, Globals, zero_scene, Thread, main_thread}
use dss_vdc_venta.CString.{Bytes, strcmp_eq, codes}

-- A sensor slot without its readings.
abbrev pub settings_of : SensorValue → SensorValue
settings_of v = record v { value = pos 0; last_value = pos 0; last_query = pos 0 }

abbrev pub settings : List SensorValue → List SensorValue
settings values = map settings_of values

-- The globals without the readings, the current values and the mutex.
abbrev pub without_readings : Globals → Globals
without_readings g = record g {
  humifier = record g.humifier { sensor_values = settings g.humifier.sensor_values };
  current_values = zero_scene;
  network_mutex = record { owner = main_thread; depth = 0 };
}

settings-store_reading :
    (now : ℤ) (r : Option ℤ) (v : SensorValue)
    → settings_of (store_reading now r v).0 ≡ settings_of v
unfolding store_reading
settings-store_reading now none v = refl
settings-store_reading now (some value) v = refl

pub settings-update_sensors :
    (now : ℤ) (r : Option ℤ) (at : Option ℕ) (values : List SensorValue)
    → settings (update_sensors now r at values).0 ≡ settings values
unfolding update_sensors
settings-update_sensors now r none values = refl
settings-update_sensors now r (some i) [] = refl
settings-update_sensors now r (some zero) (v ∷ values) = cc (settings-store_reading now r v)
settings-update_sensors now r (some (suc i)) (v ∷ values) =
    cc (settings-update_sensors now r (some i) values)

module _ (json : JsonC) where
  open json use {Json, members, tokener_parse}

  pub device_entry_frame :
      (now : ℤ) (key : Bytes) (value : Json) (g : Globals)
      → without_readings (device_entry json now key value g).0 ≡ without_readings g
  unfolding device_entry
  device_entry_frame now key value g = rw settings-update_sensors refl

  pub device_entries_frame :
      (now : ℤ) (es : List (Bytes × Json)) (g : Globals)
      → without_readings (device_entries json now es g).0 ≡ without_readings g
  unfolding device_entries
  device_entries_frame now [] g = refl
  device_entries_frame now ((key, value) ∷ es) g =
      device_entries_frame now es (device_entry json now key value g).0
      ∙ device_entry_frame now key value g

  entries_frame :
      (now : ℤ) (es : List (Bytes × Json)) (g g' : Globals) (changed : Bool)
      → entries json now es g ≡ some (g', changed)
      → without_readings g' ≡ without_readings g
  unfolding entries
  entries_frame now [] g g' changed e = ground arith
  entries_frame now ((key, value) ∷ es) g g' changed e =
      elim (Bool-cases (strcmp_eq key (codes "device"))) [
        | inl device ↦ elim (Option-cases (members value)) [
          | inl no_object ↦ cc (rw (device, no_object) at e)
          | inr (ms, object) ↦
              elim (Option-cases (entries json now es (device_entries json now ms g).0)) [
                | inl fault ↦ cc (rw (device, object, fault) at e)
                | inr ((g'', later), rest) ↦
                    let last : g'' ≡ g' = cc (rw (device, object, rest) at e) in
                    rw (← last) (
                      entries_frame now es (device_entries json now ms g).0 g'' later rest
                      ∙ device_entries_frame now ms g)
              ]
        ]
        | inr other ↦ entries_frame now es g g' changed (rw other at e)
      ]

  -- Parsing an answer changes no setting: the globals after it are those before, but for the
  -- readings of the sensor slots, the current values and the mutex.
  pub parse_text_frame :
      (thread : Thread) (now : ℤ) (bytes : Bytes) (g g' : Globals) (rc : ℤ)
      → parse_text json thread now bytes g ≡ some (rc, g')
      → without_readings g' ≡ without_readings g
  unfolding parse_text
  parse_text_frame thread now bytes g g' rc e =
      elim (Option-cases (tokener_parse (c_string bytes))) [
        | inl bad ↦
            let same : g ≡ g' = cc (rw (bad, parse_text) at e) in ap without_readings (sym same)
        | inr (object, good) ↦ elim (Option-cases (members object)) [
          | inl none_there ↦ cc (rw (good, none_there, parse_text) at e)
          | inr (ms, there) ↦ elim (Option-cases (entries json now ms g)) [
            | inl fault ↦ cc (rw (good, there, fault, parse_text) at e)
            | inr ((last, changed), done) ↦
                let same : record last { network_mutex = unlock thread last.network_mutex } ≡ g' =
                  cc (rw (good, there, done, parse_text) at e) in
                ap without_readings (sym same) ∙ entries_frame now ms g last changed done
          ]
        ]
      ]
