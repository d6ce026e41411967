-- ===== src/Config/Write.antt =====
-- `write_config` of venta/configuration.c.
pub mod Files
pub mod Total
pub mod Leads
pub mod Stored
pub mod Holds
pub mod Sensors
pub mod Built
use dss_vdc_venta.Prelude.{
  Option, ℤ, ℕ, Bool, some, if◌then◌else◌, List, ltb_ℤ, ◌∷◌, [], negsuc, ◌==ℤ◌, none, ◌>>=◌, true,
  ◌+◌, ◌++◌, false, ◌>>◌, guard, leb, length, pos,
}
use dss_vdc_venta.Config.Libconfig.{
  Libconfig, SettingPath, Kind, int_kind, string_kind, group_kind, root, humifier_path, scenes_path,
  scene_path, scene_member, sensor_path, sensor_member,
}
use dss_vdc_venta.CString.{Bytes, codes, strcmp_eq}
use dss_vdc_venta.Types.{Scene, SensorValue, VentaHumifier, Globals}

module _ (lib : Libconfig) where
  open lib use {Config, init, lookup, setting_add, setting_set_int, setting_set_string}

  -- config_setting_add, and config_setting_get_member where that gives a null pointer; `none` is a
  -- null pointer from both, which the next call reads through.
  unfoldable pub add_or_get : SettingPath → Kind → Config → Option Config
  add_or_get path kind c = elim (setting_add c path kind) [
    | some c' ↦ some c'
    | none ↦ if lookup c path then some c else none
  ]

  unfoldable pub put_int : SettingPath → ℤ → Config → Option Config
  unfolding add_or_get
  put_int path i c = do c' ← add_or_get path int_kind c; some (setting_set_int c' path i)

  unfoldable pub put_string : SettingPath → Option Bytes → Config → Option Config
  unfolding add_or_get
  put_string path s c = do c' ← add_or_get path string_kind c; some (setting_set_string c' path s)

  -- `if (value->fan > -1)`, and so for the two modes.
  unfoldable pub put_if_set : SettingPath → ℤ → Config → Option Config
  unfolding put_int
  put_if_set path i c = if ltb_ℤ (negsuc 0) i then put_int path i c else some c

  unfoldable pub write_scene : ℕ → Scene → Config → Option Config
  unfolding add_or_get put_int put_if_set
  write_scene i s c = do
    c ← add_or_get (scene_path i) group_kind c
    c ← put_int (scene_member i "dsId") s.ds_id c
    c ← put_if_set (scene_member i "fan") s.fan c
    c ← put_if_set (scene_member i "mode_sleep") s.mode_sleep c
    put_if_set (scene_member i "mode_automatic") s.mode_automatic c

  -- The loop over the scene slots: it ends at the first free one.
  unfoldable pub write_scenes : ℕ → List Scene → Config → Option Config
  unfolding write_scene
  write_scenes i [] c = some c
  write_scenes i (s ∷ slots) c = elim (s.ds_id ==ℤ negsuc 0) [
    | true ↦ some c
    | false ↦ (do c ← write_scene i s c; write_scenes (i + 1) slots c)
  ]

  -- The group of a sensor has no second try: a null pointer goes on to the next call as the parent.
  unfoldable pub write_sensor : ℕ → Bytes → SensorValue → Config → Option Config
  unfolding add_or_get put_int put_string
  write_sensor i name v c = do
    c ← setting_add c (sensor_path i) group_kind
    c ← put_string (sensor_member i "value_name") (some name) c
    c ← put_int (sensor_member i "sensor_type") v.sensor_type c
    put_int (sensor_member i "sensor_usage") v.sensor_usage c

  -- The loop over the sensor slots: it ends at the first one without a name.
  unfoldable pub write_sensors : ℕ → List SensorValue → Config → Option Config
  unfolding write_sensor
  write_sensors i [] c = some c
  write_sensors i (v ∷ values) c = elim v.value_name [
    | none ↦ some c
    | some name ↦ (do c ← write_sensor i name v c; write_sensors (i + 1) values c)
  ]

  unfoldable pub write_lib_dsuid : Bytes → Config → Option Config
  unfolding put_string strcmp_eq
  write_lib_dsuid dsuid c =
      if strcmp_eq dsuid [] then some c else put_string (root "libdsuid") (some dsuid) c

  unfoldable pub write_root : Globals → Config → Option Config
  unfolding write_lib_dsuid put_string put_int
  write_root g c = do
    c ← put_string (root "vdcdsuid") (some g.vdc_dsuid) c
    c ← write_lib_dsuid g.lib_dsuid c
    c ← put_int (root "reload_values") g.reload_values c
    c ← put_int (root "zone_id") g.default_zone_id c
    put_int (root "debug") g.debug_level c

  -- `config_setting_add` for the group "humifier" has no second try: a null pointer goes on to the
  -- next call as the parent.
  unfoldable pub add_humifier : Config → Option Config
  add_humifier c = setting_add c (root "humifier") group_kind

  unfoldable pub write_humifier : VentaHumifier → Config → Option Config
  unfolding add_humifier put_string add_or_get write_scenes
  write_humifier h c = do
    c ← add_humifier c
    c ← put_string (humifier_path "id") h.id c
    c ← put_string (humifier_path "name") h.name c
    c ← put_string (humifier_path "ip") h.ip c
    c ← add_or_get scenes_path group_kind c
    write_scenes 0 h.scenes c

  -- The configuration that is written. (Where the group "sensor_values" cannot be added the source
  -- looks for it below another setting; a null pointer stands for that here.)
  unfoldable pub build_config : Globals → Option Config
  unfolding write_root write_humifier write_sensors
  build_config g = do
    c ← write_root g init
    c ← write_humifier g.humifier c
    c ← setting_add c (root "sensor_values") group_kind
    write_sensors 0 g.humifier.sensor_values c

  -- What happens to the files: a configuration is written (well or not), a file is removed, a file
  -- takes another's name.
  pub data FileOp : Type 0 where
    write_file : Bytes → Config → Bool → FileOp
    unlink : Bytes → FileOp
    rename : Bytes → Bytes → FileOp

  -- `tmpfile` has PATH_MAX bytes. The parameter `written` is what `config_write_file` returns.
  unfoldable pub write_config : Bool → Bytes → Globals → Option (ℤ × List FileOp)
  unfolding build_config
  write_config written cfgfile g = do
    c ← build_config g
    let tmpfile = cfgfile ++ codes ".cfg.new"
    guard (leb (length tmpfile + 1) 4096)
    some (
      pos 0,
      write_file tmpfile c written
          ∷ (if written then rename tmpfile cfgfile ∷ [] else unlink tmpfile ∷ []),
    )
