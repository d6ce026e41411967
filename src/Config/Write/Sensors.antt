-- ===== src/Config/Write/Sensors.antt =====
-- The settings that `write_config` stores for the sensors.
use dss_vdc_venta.CString.Search.{strcmp_eq_refl}
use dss_vdc_venta.Config.Write.{write_sensor, write_sensors, some}
use dss_vdc_venta.Config.Lawful.{
  SettingMap, IsLawful, find, path_eq, int_setting, string_setting, slot_differs, group_setting,
  path_eq_refl, is_group,
}
use dss_vdc_venta.Config.Write.Leads.{
  Leads, then-Leads, setting_add-Leads, put_string-Leads, put_int-Leads,
}
use dss_vdc_venta.Types.{SensorValue}
use dss_vdc_venta.Config.Libconfig.{
  SettingPath, Libconfig, sensor_member, root, sensor_path, slot_name, group_kind,
}
use dss_vdc_venta.Prelude.{
  ℕ, List, String, ◌∷◌, ◌+◌, ◌≡◌, none, false, some, Option-cases, [], ◌≤◌, refl, arith, inl, ◌∙◌,
  inr, ap,
}
use dss_vdc_venta.CString.{Bytes, codes, strcmp_eq}

-- One sensor, on top of what is there.
abbrev pub sensor_entries : ℕ → Bytes → SensorValue → SettingMap → SettingMap
sensor_entries i name v settings =
    (sensor_member i "sensor_usage", int_setting v.sensor_usage)
    ∷ (sensor_member i "sensor_type", int_setting v.sensor_type)
    ∷ (sensor_member i "value_name", string_setting (some name))
    ∷ (sensor_path i, group_setting)
    ∷ settings

-- The sensors up to the first one without a name.
unfoldable pub sensors_entries : ℕ → List SensorValue → SettingMap → SettingMap
sensors_entries i [] settings = settings
sensors_entries i (v ∷ values) settings = elim v.value_name [
  | none ↦ settings
  | some name ↦ sensors_entries (i + 1) values (sensor_entries i name v settings)
]

-- Slots of the sensors from an index on are not there yet, and their group is.
abbrev pub HasSensorRoom : ℕ → SettingMap → Type 0
HasSensorRoom i settings =
    (find (root "sensor_values") settings ≡ some group_setting)
    × ((j : ℕ)
        → i ≤ j
        → (rest : SettingPath) → find (codes "sensor_values" ∷ slot_name j ∷ rest) settings ≡ none)

pub find-sensor_entries :
    (r : SettingPath) (i : ℕ) (name : Bytes) (v : SensorValue) (settings : SettingMap)
    → path_eq r (sensor_path i) ≡ false
    → ((a : String) → path_eq r (sensor_member i a) ≡ false)
    → find r (sensor_entries i name v settings) ≡ find r settings
find-sensor_entries r i name v settings group member =
    rw (member "sensor_usage", member "sensor_type", member "value_name", group) refl

pub HasSensorRoom-sensor :
    (i : ℕ) (name : Bytes) (v : SensorValue) (settings : SettingMap)
    → HasSensorRoom i settings
    → HasSensorRoom (i + 1) (sensor_entries i name v settings)
HasSensorRoom-sensor i name v settings (grouped, free) =
    let first = strcmp_eq_refl (codes "sensor_values") in
    (
      rw first grouped,
      λ j l rest.
          let other = slot_differs i j (omega arith) in
          find-sensor_entries (codes "sensor_values" ∷ slot_name j ∷ rest) i name v settings
            (rw (first, other) refl) (λ a. rw (first, other) refl)
          ∙ free j (omega arith) rest,
    )

-- A member of a sensor that has its group and other members.
pub sensor_member_differs :
    (i : ℕ) (a b : String)
    → strcmp_eq (codes a) (codes b) ≡ false
    → path_eq (sensor_member i a) (sensor_member i b) ≡ false
sensor_member_differs i a b other =
    rw (strcmp_eq_refl (codes "sensor_values"), strcmp_eq_refl (slot_name i), other) refl

pub sensor_member_below : (i : ℕ) (a : String) → path_eq (sensor_member i a) (sensor_path i) ≡ false
sensor_member_below i a =
    rw (strcmp_eq_refl (codes "sensor_values"), strcmp_eq_refl (slot_name i)) refl

pub sensor_path_above : (i : ℕ) (a : String) → path_eq (sensor_path i) (sensor_member i a) ≡ false
sensor_path_above i a =
    rw (strcmp_eq_refl (codes "sensor_values"), strcmp_eq_refl (slot_name i)) refl

module _ (lib : Libconfig) (law : IsLawful lib) where
  write_sensor-Leads :
      (i : ℕ) (name : Bytes) (v : SensorValue) (settings : SettingMap)
      → HasSensorRoom i settings
      → Leads lib law (write_sensor lib i name v) settings (sensor_entries i name v settings)
  unfolding write_sensor strcmp_eq
  write_sensor-Leads i name v settings (grouped, free) =
      let group = (sensor_path i, group_setting) ∷ settings in
      let named = (sensor_member i "value_name", string_setting (some name)) ∷ group in
      let typed = (sensor_member i "sensor_type", int_setting v.sensor_type) ∷ named in
      let all = sensor_entries i name v settings in
      let unset = λ (a : String). free i (omega arith) (codes a ∷ []) in
      let same = path_eq_refl (sensor_path i) in
      then-Leads lib law _ _ settings group all
        (setting_add-Leads lib law (sensor_path i) group_kind settings
          (free i (omega arith) [], ap is_group grouped))
        (then-Leads lib law _ _ group named all
          (put_string-Leads lib law (sensor_member i "value_name") (some name) group
            (rw (sensor_member_below i "value_name") (unset "value_name"), rw same refl))
          (then-Leads lib law _ _ named typed all
            (put_int-Leads lib law (sensor_member i "sensor_type") v.sensor_type named (
              rw (sensor_member_differs i "sensor_type" "value_name" refl) (unset "sensor_type"),
              rw (sensor_path_above i "value_name", same) refl,
            ))
            (put_int-Leads lib law (sensor_member i "sensor_usage") v.sensor_usage typed (
              rw (sensor_member_differs i "sensor_usage" "sensor_type" refl) (unset "sensor_usage"),
              rw (sensor_path_above i "sensor_type", same) refl,
            ))))

  pub write_sensors-Leads :
      (i : ℕ) (values : List SensorValue) (settings : SettingMap)
      → HasSensorRoom i settings
      → Leads lib law (write_sensors lib i values) settings (sensors_entries i values settings)
  unfolding write_sensors sensors_entries
  write_sensors-Leads i [] settings room = λ c h. (c, refl, h)
  write_sensors-Leads i (v ∷ values) settings room = elim (Option-cases v.value_name) [
    | inl unnamed ↦ λ c h. rw (unnamed, write_sensors, sensors_entries) (c, refl, h)
    | inr (name, named) ↦
        let after = sensor_entries i name v settings in
        λ c h.
          rw (named, write_sensors, sensors_entries)
            (then-Leads lib law (write_sensor lib i name v) (write_sensors lib (i + 1) values)
              settings after (sensors_entries (i + 1) values after)
              (write_sensor-Leads i name v settings room)
              (write_sensors-Leads (i + 1) values after
                (HasSensorRoom-sensor i name v settings room))
              c h)
  ]
