-- ===== src/Config/Write/Built.antt =====
-- The configuration that `write_config` writes holds the settings of the globals, and no other.
use dss_vdc_venta.Config.Write.Holds.{write_scenes-Leads}
use dss_vdc_venta.Config.Write.Stored.{scenes_settings, HasRoom, find-scenes_settings}
use dss_vdc_venta.Config.Write.{
  write_root, write_lib_dsuid, some, write_humifier, build_config, add_humifier,
}
use dss_vdc_venta.Config.Write.Sensors.{sensors_entries, HasSensorRoom, write_sensors-Leads}
use dss_vdc_venta.Prelude.{
  if◌then◌else◌, [], ◌∷◌, ◌≡◌, some, false, none, Bool-cases, inl, inr, refl, String, ◌∙◌,
}
use dss_vdc_venta.Config.Libconfig.{
  Libconfig, root, scenes_path, SettingPath, humifier_path, slot_name, group_kind,
}
use dss_vdc_venta.Config.Lawful.{
  SettingMap, IsLawful, int_setting, group_setting, string_setting, find, path_eq, Holds,
}
use dss_vdc_venta.Config.Write.Leads.{
  Leads, put_string-Leads, then-Leads, put_int-Leads, setting_add-Leads, add_or_get-Leads,
}
use dss_vdc_venta.CString.{Bytes, strcmp_eq, codes}
use dss_vdc_venta.Types.{VentaHumifier, Globals}

-- The library's dSUID is stored_settings where there is one.
abbrev pub lib_dsuid_settings : Bytes → SettingMap → SettingMap
lib_dsuid_settings dsuid settings =
    if strcmp_eq dsuid []
    then settings
    else (root "libdsuid", string_setting (some dsuid)) ∷ settings

abbrev pub root_settings : Globals → SettingMap
root_settings g =
    (root "debug", int_setting g.debug_level)
    ∷ (root "zone_id", int_setting g.default_zone_id)
    ∷ (root "reload_values", int_setting g.reload_values)
    ∷ lib_dsuid_settings g.lib_dsuid ((root "vdcdsuid", string_setting (some g.vdc_dsuid)) ∷ [])

abbrev pub humifier_settings : VentaHumifier → SettingMap → SettingMap
humifier_settings h settings =
    (scenes_path, group_setting)
    ∷ (humifier_path "ip", string_setting h.ip)
    ∷ (humifier_path "name", string_setting h.name)
    ∷ (humifier_path "id", string_setting h.id)
    ∷ (root "humifier", group_setting)
    ∷ settings

-- What the globals say about the device, as settings.
abbrev pub stored_settings : Globals → SettingMap
stored_settings g = sensors_entries 0 g.humifier.sensor_values (
    (root "sensor_values", group_setting)
    ∷ scenes_settings 0 g.humifier.scenes (humifier_settings g.humifier (root_settings g)))

pub find_lib_dsuid :
    (r : SettingPath) (dsuid : Bytes) (settings : SettingMap)
    → path_eq r (root "libdsuid") ≡ false
    → find r (lib_dsuid_settings dsuid settings) ≡ find r settings
find_lib_dsuid r dsuid settings other = elim (Bool-cases (strcmp_eq dsuid [])) [
  | inl unset ↦ rw unset refl
  | inr set ↦ rw (set, other) refl
]

-- The humifier's settings are not there after the root's, nor are those of the sensors.
root_settings_humifier :
    (g : Globals) (p : SettingPath) → find (codes "humifier" ∷ p) (root_settings g) ≡ none
unfolding strcmp_eq
root_settings_humifier g p = find_lib_dsuid (codes "humifier" ∷ p) g.lib_dsuid _ refl

root_settings_sensors :
    (g : Globals) (p : SettingPath) → find (codes "sensor_values" ∷ p) (root_settings g) ≡ none
unfolding strcmp_eq
root_settings_sensors g p = find_lib_dsuid (codes "sensor_values" ∷ p) g.lib_dsuid _ refl

pub HasRoom-humifier :
    (h : VentaHumifier) (g : Globals) → HasRoom 0 (humifier_settings h (root_settings g))
unfolding strcmp_eq
HasRoom-humifier h g =
    (refl, λ j l rest. root_settings_humifier g (codes "scenes" ∷ slot_name j ∷ rest))

pub HasSensorRoom-humifier :
    (h : VentaHumifier) (g : Globals)
    → HasSensorRoom 0 (
        (root "sensor_values", group_setting)
        ∷ scenes_settings 0 h.scenes (humifier_settings h (root_settings g)))
unfolding strcmp_eq
HasSensorRoom-humifier h g = (
  refl,
  λ j l rest.
      find-scenes_settings (codes "sensor_values" ∷ slot_name j ∷ rest) 0 h.scenes
        (humifier_settings h (root_settings g)) (λ k m. (refl, λ name. refl))
      ∙ root_settings_sensors g (slot_name j ∷ rest),
)

module _ (lib : Libconfig) (law : IsLawful lib) where
  write_lib_dsuid-Leads :
      (dsuid : Bytes) (settings : SettingMap)
      → find (root "libdsuid") settings ≡ none
      → Leads lib law (write_lib_dsuid lib dsuid) settings (lib_dsuid_settings dsuid settings)
  unfolding write_lib_dsuid
  write_lib_dsuid-Leads dsuid settings free c h = elim (Bool-cases (strcmp_eq dsuid [])) [
    | inl unset ↦ rw (unset, write_lib_dsuid) (c, refl, h)
    | inr set ↦
        rw (set, write_lib_dsuid)
          (put_string-Leads lib law (root "libdsuid") (some dsuid) settings (free, refl) c h)
  ]

  write_root-Leads : (g : Globals) → Leads lib law (write_root lib g) [] (root_settings g)
  unfolding write_root strcmp_eq
  write_root-Leads g =
      let vdc = (root "vdcdsuid", string_setting (some g.vdc_dsuid)) ∷ [] in
      let libd = lib_dsuid_settings g.lib_dsuid vdc in
      let reload = (root "reload_values", int_setting g.reload_values) ∷ libd in
      let zone = (root "zone_id", int_setting g.default_zone_id) ∷ reload in
      let all = root_settings g in
      then-Leads lib law _ _ [] vdc all
        (put_string-Leads lib law (root "vdcdsuid") (some g.vdc_dsuid) [] (refl, refl))
        (then-Leads lib law _ _ vdc libd all (write_lib_dsuid-Leads g.lib_dsuid vdc refl) (
          then-Leads lib law _ _ libd reload all
            (put_int-Leads lib law (root "reload_values") g.reload_values libd
              (find_lib_dsuid (root "reload_values") g.lib_dsuid vdc refl, refl))
            (then-Leads lib law _ _ reload zone all
              (put_int-Leads lib law (root "zone_id") g.default_zone_id reload
                (find_lib_dsuid (root "zone_id") g.lib_dsuid vdc refl, refl))
              (put_int-Leads lib law (root "debug") g.debug_level zone
                (find_lib_dsuid (root "debug") g.lib_dsuid vdc refl, refl)))))

  write_humifier-Leads :
      (h : VentaHumifier) (g : Globals)
      → Leads lib law
          (write_humifier lib h)
          (root_settings g)
          (scenes_settings 0 h.scenes (humifier_settings h (root_settings g)))
  unfolding write_humifier add_humifier strcmp_eq
  write_humifier-Leads h g =
      let start = root_settings g in
      let group = (root "humifier", group_setting) ∷ start in
      let id = (humifier_path "id", string_setting h.id) ∷ group in
      let name = (humifier_path "name", string_setting h.name) ∷ id in
      let ip = (humifier_path "ip", string_setting h.ip) ∷ name in
      let before = humifier_settings h start in
      let all = scenes_settings 0 h.scenes before in
      let free = λ (a : String). root_settings_humifier g (codes a ∷ []) in
      then-Leads lib law _ _ start group all
        (setting_add-Leads lib law (root "humifier") group_kind start
          (root_settings_humifier g [], refl))
        (then-Leads lib law _ _ group id all
          (put_string-Leads lib law (humifier_path "id") h.id group (free "id", refl))
          (then-Leads lib law _ _ id name all
            (put_string-Leads lib law (humifier_path "name") h.name id (free "name", refl))
            (then-Leads lib law _ _ name ip all
              (put_string-Leads lib law (humifier_path "ip") h.ip name (free "ip", refl))
              (then-Leads lib law _ _ ip before all
                (add_or_get-Leads lib law scenes_path group_kind ip (free "scenes", refl))
                (write_scenes-Leads lib law 0 h.scenes before (HasRoom-humifier h g))))))

  -- Over a lawful libconfig, a configuration is made of any globals, and it has exactly the
  -- settings that the globals stand for: those of the root, of the humifier, of its scenes up to
  -- the first free slot and of its sensors up to the first one without a name.
  pub build_config-stored_settings :
      (g : Globals)
      → (c : lib.Config) × (build_config lib g ≡ some c) × Holds lib law c (stored_settings g)
  unfolding build_config strcmp_eq
  build_config-stored_settings g =
      let start = root_settings g in
      let written = scenes_settings 0 g.humifier.scenes (humifier_settings g.humifier start) in
      let group = (root "sensor_values", group_setting) ∷ written in
      then-Leads lib law _ _ [] start (stored_settings g) (write_root-Leads g)
        (then-Leads lib law _ _ start written (stored_settings g)
          (write_humifier-Leads g.humifier g)
          (then-Leads lib law _ _ written group (stored_settings g)
            (setting_add-Leads lib law (root "sensor_values") group_kind written (
              find-scenes_settings (root "sensor_values") 0 g.humifier.scenes
                    (humifier_settings g.humifier (root_settings g)) (λ k m. (refl, λ name. refl))
                  ∙ root_settings_sensors g [],
              refl,
            ))
            (write_sensors-Leads lib law 0 g.humifier.sensor_values group
              (HasSensorRoom-humifier g.humifier g))))
        lib.init law.init_law
