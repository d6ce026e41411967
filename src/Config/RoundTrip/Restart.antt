-- ===== src/Config/RoundTrip/Restart.antt =====
-- A start of the program with the configuration that it wrote before.
use dss_vdc_venta.Config.Write.Sensors.{sensors_entries}
use dss_vdc_venta.Config.Write.{build_config}
use dss_vdc_venta.Config.RoundTrip.Lookups.{
  vdc_dsuid_there, lib_dsuid_there, find_at_scene, humifier_string, root_ints,
}
use dss_vdc_venta.Config.Read.{
  vdcd_of, copy_dsuid, read_root, read_tables, read_config, read_mandatory, with_root, with_tables,
  make_device, regular, returned, or_else, or_stale,
}
use dss_vdc_venta.Scenes.Loaded.{scene_fields}
use dss_vdc_venta.CString.Search.{fields}
use dss_vdc_venta.Config.RoundTrip.Sensors.{
  IsNamed, restored_sensors, SensorsAgree, read_sensors-restored,
}
use dss_vdc_venta.Config.RoundTrip.Table.{restored_table, IsShort, Agrees, read_scenes-restored}
use dss_vdc_venta.Config.Write.Built.{
  stored_settings, humifier_settings, root_settings, build_config-stored_settings,
  HasSensorRoom-humifier, HasRoom-humifier,
}
use dss_vdc_venta.Config.Write.Stored.{scenes_settings}
use dss_vdc_venta.Config.Lawful.{find, group_setting, IsLawful, Holds, Setting, string_setting}
use dss_vdc_venta.Prelude.{
  List, ◌≡◌, some, if◌then◌else◌, ◌∷◌, length, [], ◌<◌, leb_ℤ, ◌++◌, pos, All, ◌∙◌, refl, negsuc,
  none, arith, Bool-cases, inl, Option, inr, ℤ, ◌≤◌, ap, true,
}
use dss_vdc_venta.Config.Libconfig.{slot_name, root, Libconfig}
use dss_vdc_venta.CString.{Bytes, strcmp_eq, codes}
use dss_vdc_venta.Types.{Scene, SensorValue, Globals}

-- Globals whose settings can be written and read again: the texts fit their buffers, the used
-- slots stand before the free ones, scene numbers have one or two digits.
pub record IsStorable (g : Globals) (id name ip : Bytes) (scenes free : List Scene)
    (sensors unnamed : List SensorValue) : Type 0 where
  pub id_is : g.humifier.id ≡ some id
  pub name_is : g.humifier.name ≡ some name
  pub ip_is : g.humifier.ip ≡ some ip
  pub short_id : length id < 128
  pub short_vdc : length g.vdc_dsuid < 35
  pub short_lib : length g.lib_dsuid < 35
  pub scenes_are : g.humifier.scenes ≡ scenes ++ free
  pub short_scenes : All IsShort scenes
  pub free_unused : All (λ s. s.ds_id ≡ negsuc 0) free
  pub sensors_are : g.humifier.sensor_values ≡ sensors ++ unnamed
  pub sensors_named : All IsNamed sensors
  pub rest_unnamed : All (λ v. v.value_name ≡ none) unnamed

-- What the start leaves in the globals.
pub record Restored (g g0 g' : Globals) (dsuid_of : Bytes → Bytes) (id name ip : Bytes)
    (scenes : List Scene) (sensors : List SensorValue) : Type 0 where
  pub vdc_dsuid : g'.vdc_dsuid ≡ g.vdc_dsuid
  pub lib_dsuid : g'.lib_dsuid ≡ (if strcmp_eq g.lib_dsuid [] then g0.lib_dsuid else g.lib_dsuid)
  pub reload_values : g'.reload_values ≡ g.reload_values
  pub zone_id : g'.default_zone_id ≡ g.default_zone_id
  pub debug_level :
      g'.debug_level ≡ (if leb_ℤ g.debug_level (pos 10) then g.debug_level else g0.debug_level)
  pub id_back : g'.humifier.id ≡ some id
  pub name_back : g'.humifier.name ≡ some name
  pub ip_back : g'.humifier.ip ≡ some ip
  pub scenes_back : g'.humifier.scenes ≡ restored_table scenes g0.humifier.scenes
  pub listed : g'.humifier.configured_scenes ≡ some (b'-' ∷ fields (scene_fields scenes))
  pub sensors_back : g'.humifier.sensor_values ≡ restored_sensors sensors g0.humifier.sensor_values
  pub device : g'.device ≡ some (vdcd_of (dsuid_of id))

copied : (s old : Bytes) → length s < 35 → copy_dsuid (some s) old ≡ some s
unfolding copy_dsuid
copied s old h = ground (arith, h)

copied_if_set :
    (s old : Bytes)
    → length s < 35
    → copy_dsuid (if strcmp_eq s [] then none else some s) old
      ≡ some (if strcmp_eq s [] then old else s)
unfolding copy_dsuid
copied_if_set s old h = elim (Bool-cases (strcmp_eq s [])) [
  | inl unset ↦ rw unset refl
  | inr set ↦ rw set (copied s old h)
]

abbrev named_setting : Option Bytes → Option Setting
named_setting o = some (string_setting o)

module _ (lib : Libconfig) (law : IsLawful lib) where
  abbrev lib_dsuid_after : Globals → Globals → Bytes
  lib_dsuid_after g g0 = if strcmp_eq g.lib_dsuid [] then g0.lib_dsuid else g.lib_dsuid

  read_root-restored :
      (c : lib.Config) (g g0 : Globals)
      → Holds lib law c (stored_settings g)
      → length g.vdc_dsuid < 35
      → length g.lib_dsuid < 35
      → read_root lib c g0 ≡ some (with_root lib c g.vdc_dsuid (lib_dsuid_after g g0) g0)
  unfolding read_root
  read_root-restored c g g0 holds vdc libd =
      rw
        (
          vdc_dsuid_there lib law c g holds,
          lib_dsuid_there lib law c g holds,
          copied g.vdc_dsuid g0.vdc_dsuid vdc,
          copied_if_set g.lib_dsuid g0.lib_dsuid libd,
        )
        refl

  read_tables-restored :
      (c : lib.Config) (iv : Option ℤ) (g g0 : Globals) (id name ip : Bytes)
      (scenes free : List Scene) (sensors unnamed : List SensorValue)
      → Holds lib law c (stored_settings g)
      → IsStorable g id name ip scenes free sensors unnamed
      → length scenes ≤ length g0.humifier.scenes
      → length sensors ≤ length g0.humifier.sensor_values
      → read_tables lib c id ip iv g0
        ≡ some (
            with_tables lib c id ip
              (restored_sensors sensors g0.humifier.sensor_values)
              (restored_table scenes g0.humifier.scenes, b'-' ∷ fields (scene_fields scenes))
              g0)
  unfolding read_tables
  read_tables-restored c iv g g0 id name ip scenes free sensors unnamed holds s fits fit =
      let before = humifier_settings g.humifier (root_settings g) in
      let scene_view : Agrees lib law c 0 (scenes_settings 0 (scenes ++ free) before) = λ j rest l.
        holds (codes "humifier" ∷ codes "scenes" ∷ slot_name j ∷ rest)
        ∙ find_at_scene j rest g
        ∙ ap
            (λ (table : List Scene).
              find (codes "humifier" ∷ codes "scenes" ∷ slot_name j ∷ rest)
                (scenes_settings 0 table before))
            s.scenes_are in
      let base =
        (root "sensor_values", group_setting) ∷ scenes_settings 0 g.humifier.scenes before in
      let sensor_view : SensorsAgree lib law c 0 (sensors_entries 0 (sensors ++ unnamed) base) =
        λ j rest l.
          holds (codes "sensor_values" ∷ slot_name j ∷ rest)
          ∙ ap
              (λ (table : List SensorValue).
                find (codes "sensor_values" ∷ slot_name j ∷ rest) (sensors_entries 0 table base))
              s.sensors_are in
      let (last, sensors_read) =
        read_sensors-restored lib law c 0 iv sensors unnamed g0.humifier.sensor_values base
          (HasSensorRoom-humifier g.humifier g) s.sensors_named s.rest_unnamed fit sensor_view in
      let scenes_read =
        read_scenes-restored lib law c 0 last (b'-' ∷ []) scenes free g0.humifier.scenes before
          (HasRoom-humifier g.humifier g) s.short_scenes s.free_unused fits scene_view in
      rw sensors_read (simp scenes_read)

  -- Over a lawful libconfig: where the globals can be stored_settings and a later process has slots enough
  -- for their scenes and sensors, a configuration is made of them, and the later process reads it
  -- with result 0 and gets them back: the dSUIDs (libdSUID's unless it is empty), the reload time,
  -- the zone, the debug level (unless it is above 10), id, name and address of the humifier, its
  -- sensors, and its scenes in their order with the text that lists them, with every negative value
  -- of a scene as -1; a scene slot that is left is free, and a sensor slot that is left is inactive.
  pub restart_restores :
      (g g0 : Globals) (dsuid_of : Bytes → Bytes) (id name ip : Bytes) (scenes free : List Scene)
      (sensors unnamed : List SensorValue)
      → IsStorable g id name ip scenes free sensors unnamed
      → length scenes ≤ length g0.humifier.scenes
      → length sensors ≤ length g0.humifier.sensor_values
      → (c : lib.Config) × (build_config lib g ≡ some c)
        × (g' : Globals) × (read_config lib regular (some c) true dsuid_of g0
            ≡ some (returned (pos 0), g'))
        × Restored g g0 g' dsuid_of id name ip scenes sensors
  unfolding read_config read_mandatory make_device strcmp_eq
  restart_restores g g0 dsuid_of id name ip scenes free sensors unnamed s fits fit =
      let (c, built, holds) = build_config-stored_settings lib law g in
      let g1 = with_root lib c g.vdc_dsuid (lib_dsuid_after g g0) g0 in
      let root_ran = read_root-restored c g g0 holds s.short_vdc s.short_lib in
      let t =
        read_tables-restored c g1.1 g g1.0 id name ip scenes free sensors unnamed holds s fits
          fit in
      let id_there = humifier_string lib law c g holds "id" id refl (ap named_setting s.id_is) in
      let ip_there = humifier_string lib law c g holds "ip" ip refl (ap named_setting s.ip_is) in
      let name_there =
        humifier_string lib law c g holds "name" name refl (ap named_setting s.name_is) in
      let (reload, zone, debug) = root_ints lib law c g holds in
      let g2 =
        with_tables lib c id ip (restored_sensors sensors g0.humifier.sensor_values)
          (restored_table scenes g0.humifier.scenes, b'-' ∷ fields (scene_fields scenes)) g1.0 in
      (
        c,
        built,
        record g2 { device = some (vdcd_of (dsuid_of id)) },
        simp (root_ran, id_there, ip_there, t) (ground (arith, s.short_id)),
        record {
          vdc_dsuid = refl;
          lib_dsuid = refl;
          reload_values = ap (λ (o : Option ℤ). or_else o g0.reload_values) reload;
          zone_id = ap (λ (o : Option ℤ). or_else o g0.default_zone_id) zone;
          debug_level =
              ap
                (λ (o : Option ℤ).
                  if leb_ℤ (or_else o g0.debug_level) (pos 10)
                  then or_else o g0.debug_level
                  else g0.debug_level)
                debug;
          id_back = refl;
          name_back = ap (λ (o : Option Bytes). or_stale o g0.humifier.name) name_there;
          ip_back = refl;
          scenes_back = refl;
          listed = refl;
          sensors_back = refl;
          device = refl;
        },
      )
