-- ===== src/Network/Parse.antt =====
-- `parse_json_data` of venta/network.c.
pub mod Frame
pub mod Changes
pub mod Unlocking
use dss_vdc_venta.Prelude.{
  ℤ, Bool, if◌then◌else◌, Option, ◌∷◌, ◌==ℤ◌, some, false, ℕ, true, ◌&&◌, List, none, ◌==◌, pos,
  suc, not, ◌||◌, negsuc, [], ◌-◌, zero,
}
use dss_vdc_venta.Network.Action
use dss_vdc_venta.Network.Json.{JsonC, JsonType, int_type, boolean_type, other_type}
use dss_vdc_venta.Network.Http.{Memory, uninitialised, text, null, MemoryStruct}
use dss_vdc_venta.Types.{
  Scene, SensorValue, VentaHumifier, Globals, Thread, main_thread, network_thread, Mutex,
}
use dss_vdc_venta.Sensors.{find_sensor_value_by_name}
use dss_vdc_venta.CString.{Bytes, codes, strcmp_eq}

-- The bytes before the first NUL.
unfoldable pub c_string : Bytes → Bytes
c_string [] = []
c_string (c ∷ s) = if c == 0 then [] else c ∷ c_string s

-- The chain of tests on `key1`.
unfoldable pub update_current : Bytes → ℤ → Scene → Scene
unfolding strcmp_eq
update_current key i current =
    if strcmp_eq key (codes "hum")
    then record current { current_humidity = i }
    else if strcmp_eq key (codes "temp")
    then record current { current_temperature = i }
    else if strcmp_eq key (codes "humt")
    then record current { target_humidity = i }
    else if strcmp_eq key (codes "auto")
    then record current { mode_automatic = i }
    else if strcmp_eq key (codes "sleep")
    then record current { mode_sleep = i }
    else if strcmp_eq key (codes "fan")
    then record current { fan = i }
    else current

-- `svalue->last_reported == 0 || svalue->last_value != value`
abbrev pub is_change : ℤ → SensorValue → Bool
is_change value v = v.last_reported ==ℤ pos 0 || not (v.last_value ==ℤ value)

abbrev pub store_value : ℤ → ℤ → SensorValue → SensorValue
store_value now value v = record v { last_value = v.value; value = value; last_query = now }

-- The value that is written to the sensor slot, where the type is one of the two that are handled.
abbrev pub reading : JsonType → ℤ → Bool → Option ℤ
reading int_type i b = some i
reading boolean_type i b = some (if b then pos 1 else pos 0)
reading other_type i b = none

unfoldable pub store_reading : ℤ → Option ℤ → SensorValue → SensorValue × Bool
store_reading now none v = (v, false)
store_reading now (some value) v = (store_value now value v, is_change value v)

-- The slot that `find_sensor_value_by_name` points to is updated in place.
unfoldable pub update_sensors : ℤ → Option ℤ → Option ℕ → List SensorValue → List SensorValue × Bool
unfolding store_reading
update_sensors now r none values = (values, false)
update_sensors now r (some i) [] = ([], false)
update_sensors now r (some zero) (v ∷ values) =
    let (v', changed) = store_reading now r v in (v' ∷ values, changed)
update_sensors now r (some (suc i)) (v ∷ values) =
    let (values', changed) = update_sensors now r (some i) values in (v ∷ values', changed)

-- A recursive mutex refuses to be unlocked by a thread that does not hold it.
abbrev pub same_thread : Thread → Thread → Bool
same_thread main_thread main_thread = true
same_thread network_thread network_thread = true
same_thread _ _ = false

unfoldable pub unlock : Thread → Mutex → Mutex
unlock t m =
    if same_thread t m.owner && not (m.depth == 0) then record m { depth = m.depth - 1 } else m

module _ (json : JsonC) where
  open json use {Json, tokener_parse, members, get_type, get_int, get_boolean}

  -- One round of the inner loop: the globals, and whether this entry is a change.
  unfoldable pub device_entry : ℤ → Bytes → Json → Globals → Globals × Bool
  unfolding update_current update_sensors find_sensor_value_by_name
  device_entry now key value g =
      let (values, changed) =
        update_sensors now (reading (get_type value) (get_int value) (get_boolean value))
          (find_sensor_value_by_name key g.humifier) g.humifier.sensor_values in
      (
        record g {
          current_values = update_current key (get_int value) g.current_values;
          humifier = record g.humifier { sensor_values = values };
        },
        changed,
      )

  unfoldable pub device_entries : ℤ → List (Bytes × Json) → Globals → Globals × Bool
  unfolding device_entry
  device_entries now [] g = (g, false)
  device_entries now ((key, value) ∷ entries) g =
      let (g', changed) = device_entry now key value g in
      let (g'', later) = device_entries now entries g' in (g'', changed || later)

  -- The outer loop: only members called "device" are looked into.
  unfoldable pub entries : ℤ → List (Bytes × Json) → Globals → Option (Globals × Bool)
  unfolding device_entries strcmp_eq
  entries now [] g = some (g, false)
  entries now ((key, value) ∷ rest) g =
      if strcmp_eq key (codes "device")
      then elim (members value) [
        | none ↦ none
        | some device ↦
            let (g', changed) = device_entries now device g in
            elim (entries now rest g') [
              | none ↦ none
              | some (g'', later) ↦ some (g'', changed || later)
            ]
      ]
      else entries now rest g

  -- After the loops: the mutex is unlocked, though nothing here has locked it.
  abbrev pub parsed : Thread → Option (Globals × Bool) → Option (ℤ × Globals)
  parsed thread none = none
  parsed thread (some (g, changed)) =
      some (
        if changed then pos 0 else pos 1,
        record g { network_mutex = unlock thread g.network_mutex },
      )

  unfoldable pub parse_text : Thread → ℤ → Bytes → Globals → Option (ℤ × Globals)
  unfolding entries unlock c_string
  parse_text thread now bytes g = elim (tokener_parse (c_string bytes)) [
    | none ↦ some (negsuc 13, g)
    | some object ↦ elim (members object) [
      | none ↦ none
      | some ms ↦ parsed thread (entries now ms g)
    ]
  ]

  -- The result is 0 for new values, 1 for none, VENTA_GETMEASURE_FAILED (-14) for a text that does
  -- not parse. Reading a memory that was never written, or a null pointer, is undefined.
  unfoldable pub parse_json_data : Thread → ℤ → MemoryStruct → Action.Action ℤ
  unfolding parse_text
  parse_json_data thread now response = elim response.memory [
    | uninitialised ↦ λ g. none
    | text bytes ↦ parse_text thread now bytes
    | null ↦ λ g. none
  ]
