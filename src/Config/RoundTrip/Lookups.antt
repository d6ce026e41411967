-- ===== src/Config/RoundTrip/Lookups.antt =====
-- What is looked up in a written configuration.
use dss_vdc_venta.CString.Search.{strcmp_eq_refl}
use dss_vdc_venta.Config.RoundTrip.Sensors.{find-sensors_entries}
use dss_vdc_venta.Config.Write.Built.{
  stored_settings, humifier_settings, root_settings, find_lib_dsuid, lib_dsuid_settings,
}
use dss_vdc_venta.Config.Write.Stored.{IsElsewhere, scenes_settings, find-scenes_settings}
use dss_vdc_venta.Config.Lawful.{
  path_eq, find, group_setting, IsLawful, Holds, string_setting, int_at, string_at, string_at_none,
}
use dss_vdc_venta.Prelude.{
  String, ℕ, ◌≡◌, some, if◌then◌else◌, ◌∷◌, false, [], ◌∙◌, refl, none, Bool-cases, inl, inr,
}
use dss_vdc_venta.Config.Libconfig.{
  SettingPath, sensor_path, sensor_member, slot_name, root, humifier_path, Libconfig,
}
use dss_vdc_venta.CString.{Bytes, strcmp_eq, codes}
use dss_vdc_venta.Types.{Globals}

-- What is neither a scene's nor a sensor's is looked up below both.
pub find_below_tables :
    (r : SettingPath) (g : Globals)
    → ((j : ℕ)
        → (path_eq r (sensor_path j) ≡ false)
          × ((a : String) → path_eq r (sensor_member j a) ≡ false))
    → path_eq r (root "sensor_values") ≡ false
    → ((j : ℕ) → IsElsewhere r j)
    → find r (stored_settings g) ≡ find r (humifier_settings g.humifier (root_settings g))
find_below_tables r g sensors group scenes =
    find-sensors_entries r 0 g.humifier.sensor_values
      ((root "sensor_values", group_setting)
        ∷ scenes_settings 0 g.humifier.scenes (humifier_settings g.humifier (root_settings g)))
      (λ j l. sensors j)
    ∙ rw group (
        find-scenes_settings r 0 g.humifier.scenes (humifier_settings g.humifier (root_settings g))
          (λ j l. scenes j))

-- A scene's settings are looked up below the sensors.
pub find_at_scene :
    (j : ℕ) (rest : SettingPath) (g : Globals)
    → find (codes "humifier" ∷ codes "scenes" ∷ slot_name j ∷ rest) (stored_settings g)
      ≡ find
          (codes "humifier" ∷ codes "scenes" ∷ slot_name j ∷ rest)
          (scenes_settings 0 g.humifier.scenes (humifier_settings g.humifier (root_settings g)))
unfolding strcmp_eq
find_at_scene j rest g =
    find-sensors_entries (codes "humifier" ∷ codes "scenes" ∷ slot_name j ∷ rest) 0
      g.humifier.sensor_values
      ((root "sensor_values", group_setting)
        ∷ scenes_settings 0 g.humifier.scenes (humifier_settings g.humifier (root_settings g)))
      (λ k l. (refl, λ a. refl))

pub find_at_root :
    (a : String) (g : Globals)
    → strcmp_eq (codes a) (codes "sensor_values") ≡ false
    → strcmp_eq (codes a) (codes "humifier") ≡ false
    → find (root a) (stored_settings g) ≡ find (root a) (root_settings g)
find_at_root a g n1 n2 =
    find_below_tables (root a) g (λ j. (rw n1 refl, λ b. rw n1 refl)) (rw n1 refl)
      (λ j. (rw n2 refl, λ b. rw n2 refl))
    ∙ rw n2 refl

pub find_at_humifier :
    (a : String) (g : Globals)
    → strcmp_eq (codes a) (codes "scenes") ≡ false
    → find (humifier_path a) (stored_settings g)
      ≡ find (humifier_path a) (humifier_settings g.humifier (root_settings g))
unfolding strcmp_eq
find_at_humifier a g n =
    find_below_tables (humifier_path a) g (λ j. (refl, λ b. refl)) refl
      (λ j. (rw n refl, λ b. rw n refl))

libdsuid_differs : strcmp_eq (codes "libdsuid") (codes "vdcdsuid") ≡ false
unfolding strcmp_eq
libdsuid_differs = refl

module _ (lib : Libconfig) (law : IsLawful lib) (c : lib.Config) (g : Globals)
    (holds : Holds lib law c (stored_settings g)) where
  open lib use {lookup_int, lookup_string}

  pub vdc_dsuid_there : lookup_string c (root "vdcdsuid") ≡ some g.vdc_dsuid
  unfolding strcmp_eq
  vdc_dsuid_there = string_at lib law c (root "vdcdsuid") g.vdc_dsuid (
      holds (root "vdcdsuid")
      ∙ find_at_root "vdcdsuid" g refl refl
      ∙ find_lib_dsuid (root "vdcdsuid") g.lib_dsuid
          ((root "vdcdsuid", string_setting (some g.vdc_dsuid)) ∷ []) refl)

  lib_dsuid_view :
      law.view c (root "libdsuid")
      ≡ find (root "libdsuid") (
          lib_dsuid_settings g.lib_dsuid
            ((root "vdcdsuid", string_setting (some g.vdc_dsuid)) ∷ []))
  unfolding strcmp_eq
  lib_dsuid_view = holds (root "libdsuid") ∙ find_at_root "libdsuid" g refl refl

  -- Whose setting is missing where the text is empty.
  pub lib_dsuid_there :
      lookup_string c (root "libdsuid")
      ≡ (if strcmp_eq g.lib_dsuid [] then none else some g.lib_dsuid)
  lib_dsuid_there = elim (Bool-cases (strcmp_eq g.lib_dsuid [])) [
    | inl unset ↦ rw unset (
        string_at_none lib law c (root "libdsuid")
          (lib_dsuid_view ∙ rw (unset, libdsuid_differs) refl))
    | inr set ↦ rw set (
        string_at lib law c (root "libdsuid") g.lib_dsuid
          (lib_dsuid_view ∙ rw (set, strcmp_eq_refl (codes "libdsuid")) refl))
  ]

  pub root_ints :
      (lookup_int c (root "reload_values") ≡ some g.reload_values)
      × (lookup_int c (root "zone_id") ≡ some g.default_zone_id)
      × (lookup_int c (root "debug") ≡ some g.debug_level)
  unfolding strcmp_eq
  root_ints = (
    int_at lib law c (root "reload_values") _
        (holds (root "reload_values") ∙ find_at_root "reload_values" g refl refl),
    int_at lib law c (root "zone_id") _
        (holds (root "zone_id") ∙ find_at_root "zone_id" g refl refl),
    int_at lib law c (root "debug") _ (holds (root "debug") ∙ find_at_root "debug" g refl refl),
  )

  pub humifier_string :
      (a : String) (s : Bytes)
      → strcmp_eq (codes a) (codes "scenes") ≡ false
      → find (humifier_path a) (humifier_settings g.humifier (root_settings g))
        ≡ some (string_setting (some s))
      → lookup_string c (humifier_path a) ≡ some s
  humifier_string a s n e =
      string_at lib law c (humifier_path a) s (holds (humifier_path a) ∙ find_at_humifier a g n ∙ e)
