-- ===== src/Config/RoundTrip/Sensors.antt =====
-- The sensors of a written configuration, as `read_config` reads them.
use dss_vdc_venta.CString.Search.{strcmp_eq_refl}
use dss_vdc_venta.Config.Read.{read_sensors}
use dss_vdc_venta.Config.Lawful.{
  SettingMap, IsLawful, find, path_eq, Setting, group_setting, path_eq_refl, slot_differs_later,
  string_setting, int_setting, is_there, string_at, int_at,
}
use dss_vdc_venta.Config.Libconfig.{Libconfig, SettingPath, sensor_path, slot_name, sensor_member}
use dss_vdc_venta.Config.Write.Sensors.{
  sensors_entries, sensor_entries, sensor_path_above, HasSensorRoom, sensor_member_differs,
  find-sensor_entries, HasSensorRoom-sensor,
}
use dss_vdc_venta.CString.{Bytes, strcmp_eq, codes}
use dss_vdc_venta.Prelude.{
  true, false, List, ℕ, map, ◌≡◌, ◌∷◌, some, All, ◌≤◌, Option, [], none, ◌+◌, ℤ, refl, String,
  length, ◌++◌, Option-cases, arith, ◌∙◌, inl, ap, inr, sym,
}
use dss_vdc_venta.Types.{SensorValue}

-- A slot that a written sensor is read into.
abbrev pub restored_sensor : SensorValue → SensorValue → SensorValue
restored_sensor w v = record v {
  value_name = w.value_name;
  sensor_type = w.sensor_type;
  sensor_usage = w.sensor_usage;
  is_active = true;
}

abbrev inactive : SensorValue → SensorValue
inactive v = record v { is_active = false }

-- The slots after the sensors are read into them; those that are left are only deactivated.
abbrev pub restored_sensors : List SensorValue → List SensorValue → List SensorValue
restored_sensors [] slots = map inactive slots
restored_sensors (w ∷ written) [] = []
restored_sensors (w ∷ written) (v ∷ slots) = restored_sensor w v ∷ restored_sensors written slots

abbrev pub IsNamed : SensorValue → Type 0
IsNamed v = (name : Bytes) × (v.value_name ≡ some name)

sensors_entries_unused :
    (i : ℕ) (free : List SensorValue) (settings : SettingMap)
    → All (λ v. v.value_name ≡ none) free
    → sensors_entries i free settings ≡ settings
unfolding sensors_entries
sensors_entries_unused i [] settings h = refl
sensors_entries_unused i (v ∷ free) settings h = rw (h.0, sensors_entries) refl

sensors_entries_used :
    (i : ℕ) (v : SensorValue) (name : Bytes) (slots : List SensorValue) (settings : SettingMap)
    → v.value_name ≡ some name
    → sensors_entries i (v ∷ slots) settings
      ≡ sensors_entries (i + 1) slots (sensor_entries i name v settings)
unfolding sensors_entries
sensors_entries_used i v name slots settings named = rw (named, sensors_entries) refl

-- What is no sensor's is not changed by the sensors.
pub find-sensors_entries :
    (r : SettingPath) (i : ℕ) (values : List SensorValue) (settings : SettingMap)
    → ((j : ℕ)
        → i ≤ j
        → (path_eq r (sensor_path j) ≡ false)
          × ((a : String) → path_eq r (sensor_member j a) ≡ false))
    → find r (sensors_entries i values settings) ≡ find r settings
unfolding sensors_entries
find-sensors_entries r i [] settings other = refl
find-sensors_entries r i (v ∷ values) settings other = elim (Option-cases v.value_name) [
  | inl unnamed ↦ rw (unnamed, sensors_entries) refl
  | inr (name, named) ↦
      rw (named, sensors_entries)
        (find-sensors_entries r (i + 1) values (sensor_entries i name v settings)
            (λ j l. other j (omega arith))
          ∙ find-sensor_entries r i name v settings (other i (omega arith)).0
              (other i (omega arith)).1)
]

-- A sensor is not hidden by the sensors behind it.
find_behind :
    (i : ℕ) (rest : SettingPath) (values : List SensorValue) (settings : SettingMap)
    → find (codes "sensor_values" ∷ slot_name i ∷ rest) (sensors_entries (i + 1) values settings)
      ≡ find (codes "sensor_values" ∷ slot_name i ∷ rest) settings
find_behind i rest values settings =
    let first = strcmp_eq_refl (codes "sensor_values") in
    find-sensors_entries (codes "sensor_values" ∷ slot_name i ∷ rest) (i + 1) values settings
      (λ j l.
        let other = slot_differs_later i j (omega arith) in
        (rw (first, other) refl, λ a. rw (first, other) refl))

record SensorSettings (i : ℕ) (name : Bytes) (v : SensorValue) (look : SettingPath → Option Setting)
    : Type 0 where
  group : look (sensor_path i) ≡ some group_setting
  named : look (sensor_member i "value_name") ≡ some (string_setting (some name))
  typed : look (sensor_member i "sensor_type") ≡ some (int_setting v.sensor_type)
  used : look (sensor_member i "sensor_usage") ≡ some (int_setting v.sensor_usage)

sensor_entries-SensorSettings :
    (i : ℕ) (name : Bytes) (v : SensorValue) (settings : SettingMap)
    → SensorSettings i name v (λ p. find p (sensor_entries i name v settings))
unfolding strcmp_eq
sensor_entries-SensorSettings i name v settings = record {
  group = rw (sensor_path_above i "sensor_usage", path_eq_refl (sensor_path i)) refl;
  named =
      rw
        (
          sensor_member_differs i "value_name" "sensor_usage" refl,
          path_eq_refl (sensor_member i "value_name"),
        )
        refl;
  typed =
      rw
        (
          sensor_member_differs i "sensor_type" "sensor_usage" refl,
          path_eq_refl (sensor_member i "sensor_type"),
        )
        refl;
  used = rw (path_eq_refl (sensor_member i "sensor_usage")) refl;
}

module _ (lib : Libconfig) (law : IsLawful lib) where
  open lib use {Config, lookup, lookup_int, lookup_string}

  -- The configuration says of the sensors from an index on what the settings say.
  abbrev pub SensorsAgree : Config → ℕ → SettingMap → Type 0
  SensorsAgree c i settings =
      (j : ℕ) (rest : SettingPath)
      → i ≤ j
      → law.view c (codes "sensor_values" ∷ slot_name j ∷ rest)
        ≡ find (codes "sensor_values" ∷ slot_name j ∷ rest) settings

  read_sensors_step :
      (c : Config) (i : ℕ) (iv : Option ℤ) (name : Bytes) (type usage : ℤ) (last : Option ℤ)
      (v : SensorValue) (slots slots' : List SensorValue)
      → lookup c (sensor_path i) ≡ true
      → lookup_string c (sensor_member i "value_name") ≡ some name
      → lookup_int c (sensor_member i "sensor_type") ≡ some type
      → lookup_int c (sensor_member i "sensor_usage") ≡ some usage
      → read_sensors lib c (i + 1) (some usage) slots ≡ (slots', last)
      → read_sensors lib c i iv (v ∷ slots) ≡ (
        record v {
          value_name = some name;
          sensor_type = type;
          sensor_usage = usage;
          is_active = true;
        }
            ∷ slots',
        last,
      )
  unfolding read_sensors
  read_sensors_step c i iv name type usage last v slots slots' there named typed used rest =
      rw (there, named, typed, used, rest, read_sensors) refl

  -- The loop over the slots finds the written sensors, and then no other.
  pub read_sensors-restored :
      (c : Config) (i : ℕ) (iv : Option ℤ) (written free slots : List SensorValue)
      (settings : SettingMap)
      → HasSensorRoom i settings
      → All IsNamed written
      → All (λ v. v.value_name ≡ none) free
      → length written ≤ length slots
      → SensorsAgree c i (sensors_entries i (written ++ free) settings)
      → (last : Option ℤ) × (read_sensors lib c i iv slots ≡ (restored_sensors written slots, last))
  unfolding read_sensors
  read_sensors-restored c i iv [] free [] settings room named unused fits agrees = (iv, refl)
  read_sensors-restored c i iv [] free (v ∷ slots) settings room named unused fits agrees =
      let absent : lookup c (sensor_path i) ≡ false =
        law.lookup_law c (sensor_path i)
        ∙ ap is_there (
            agrees i [] (omega arith)
            ∙ ap (find (sensor_path i)) (sensors_entries_unused i free settings unused)
            ∙ room.1 i (omega arith) []) in
      (iv, rw (absent, read_sensors) refl)
  read_sensors-restored c i iv (w ∷ written) free [] settings room named unused fits agrees =
      absurd (omega arith)
  read_sensors-restored c i iv (w ∷ written) free (v ∷ slots) settings room named unused fits
        agrees =
      let (name, is_name) = named.0 in
      let next = sensor_entries i name w settings in
      let same = sensors_entries_used i w name (written ++ free) settings is_name in
      let here = λ (rest : SettingPath).
        agrees i rest (omega arith)
        ∙ ap (find (codes "sensor_values" ∷ slot_name i ∷ rest)) same
        ∙ find_behind i rest (written ++ free) next in
      let t = sensor_entries-SensorSettings i name w settings in
      let there : lookup c (sensor_path i) ≡ true =
        law.lookup_law c (sensor_path i) ∙ ap is_there (here [] ∙ t.group) in
      let name_there : lookup_string c (sensor_member i "value_name") ≡ some name =
        string_at lib law c _ name (here (codes "value_name" ∷ []) ∙ t.named) in
      let type_there : lookup_int c (sensor_member i "sensor_type") ≡ some w.sensor_type =
        int_at lib law c _ _ (here (codes "sensor_type" ∷ []) ∙ t.typed) in
      let usage_there : lookup_int c (sensor_member i "sensor_usage") ≡ some w.sensor_usage =
        int_at lib law c _ _ (here (codes "sensor_usage" ∷ []) ∙ t.used) in
      let (last, rest) =
        read_sensors-restored c (i + 1) (some w.sensor_usage) written free slots next
          (HasSensorRoom-sensor i name w settings room) named.1 unused (omega arith)
          (λ j rest l.
            agrees j rest (omega arith)
            ∙ ap (find (codes "sensor_values" ∷ slot_name j ∷ rest)) same) in
      (
        last,
        read_sensors_step c i iv name w.sensor_type w.sensor_usage last v slots
              (restored_sensors written slots) there name_there type_there usage_there rest
            ∙ ap
                (λ (o : Option Bytes). (
                  record (restored_sensor w v) { value_name = o } ∷ restored_sensors written slots,
                  last,
                ))
                (sym is_name),
      )
