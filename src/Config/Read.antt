-- ===== src/Config/Read.antt =====
-- `read_config` of venta/configuration.c.
pub mod Scenes
pub mod Startup
use dss_vdc_venta.Prelude.{
  ℤ, Option, false, ℕ, negsuc, Bool, some, true, List, if◌then◌else◌, ltb, ◌∷◌, leb, length, ◌+◌,
  map, none, [], pos, ◌>>=◌, ◌>>◌, guard, leb_ℤ, ◌++◌,
}
use dss_vdc_venta.Config.Libconfig.{
  Libconfig, root, humifier_path, scene_path, scene_member, sensor_path, sensor_member,
}
use dss_vdc_venta.CString.{Bytes, codes, print_int}
use dss_vdc_venta.Types.{Scene, SensorValue, VentaHumifier, VentaVdcd, Globals}

-- What `stat` says of the file.
pub data FileStat : Type 0 where
  missing irregular regular : FileStat

-- `read_config` returns, or ends the process by `exit(0)`.
pub data ReadResult : Type 0 where
  returned : ℤ → ReadResult
  exited : ReadResult

-- The value that a lookup leaves in its variable: what was there, where it finds nothing.
abbrev pub or_stale {ℓ} : {A : Type ℓ} → Option A → Option A → Option A
or_stale (some a) old = some a
or_stale none old = old

abbrev pub or_else {ℓ} : {A : Type ℓ} → Option A → A → A
or_else (some a) d = a
or_else none d = d

-- strncpy into one of the buffers of 35 bytes. A text that fills the buffer leaves no NUL; the
-- undefined read that follows in `main` is put here.
unfoldable pub copy_dsuid : Option Bytes → Bytes → Option Bytes
copy_dsuid none old = some old
copy_dsuid (some sval) old = if ltb (length sval) 35 then some sval else none

abbrev pub vdcd_of : Bytes → VentaVdcd
vdcd_of dsuidstring = record {
  dsuidstring = dsuidstring;
  announced = false;
  present_signaled = false;
  present = true;
}

-- `configured_scenes` grown by one scene: `str` has four bytes, and the block that `realloc`
-- gives has four bytes more than the text without its NUL.
unfoldable pub append_scene : Bytes → ℤ → Option Bytes
append_scene configured ds_id = do
  guard (leb (length (print_int ds_id) + 1) 4)
  guard (leb (length (configured ++ (print_int ds_id ++ b'-' ∷ [])) + 1) (length configured + 4))
  some (configured ++ (print_int ds_id ++ b'-' ∷ []))

abbrev pub unconfigured : Scene → Scene
unconfigured s = record s { ds_id = negsuc 0 }

-- The device is made after the tables; its `dsuid` is libdSUID's, from the id.
unfoldable pub make_device :
    Bool → (Bytes → Bytes) → Bytes → Globals → Option (ReadResult × Globals)
make_device allocated dsuid_of id g =
    if leb (length id + 1) 128
    then if allocated
      then some (returned (pos 0), record g { device = some (vdcd_of (dsuid_of id)) })
      else some (returned (negsuc 0), record g { device = none })
    else none

module _ (lib : Libconfig) where
  open lib use {Config, lookup, lookup_int, lookup_string}

  -- The loop over the sensor slots: the slots, and what `ivalue` holds after it.
  unfoldable pub read_sensors :
      Config → ℕ → Option ℤ → List SensorValue → List SensorValue × Option ℤ
  read_sensors c i ivalue [] = ([], ivalue)
  read_sensors c i ivalue (v ∷ values) =
      let type_there = lookup_int c (sensor_member i "sensor_type") in
      let usage_there = lookup_int c (sensor_member i "sensor_usage") in
      let (values', last) =
        read_sensors c (i + 1) (or_stale usage_there (or_stale type_there ivalue)) values in
      if lookup c (sensor_path i)
      then (
        record v {
          value_name = some (or_else (lookup_string c (sensor_member i "value_name")) []);
          sensor_type = or_else type_there v.sensor_type;
          sensor_usage = or_else usage_there v.sensor_usage;
          is_active = true;
        }
            ∷ values',
        last,
      )
      else (map (λ (w : SensorValue). record w { is_active = false }) (v ∷ values), ivalue)

  -- One configured scene. `ivalue` is read after the lookup of "dsId", whether or not that found it.
  unfoldable pub read_scene : Config → ℕ → Option ℤ → Scene → Option (Scene × Option ℤ)
  read_scene c i ivalue s = do
    let fan_there = lookup_int c (scene_member i "fan")
    let automatic_there = lookup_int c (scene_member i "mode_automatic")
    let sleep_there = lookup_int c (scene_member i "mode_sleep")
    ds_id ← or_stale (lookup_int c (scene_member i "dsId")) ivalue
    some (
      record s {
        ds_id = ds_id;
        fan = or_else fan_there (negsuc 0);
        mode_automatic = or_else automatic_there (negsuc 0);
        mode_sleep = or_else sleep_there (negsuc 0);
      },
      or_stale sleep_there (or_stale automatic_there (or_stale fan_there (some ds_id))),
    )

  -- The loop over the scene slots: the slots, and the text of the configured scenes.
  unfoldable pub read_scenes :
      Config → ℕ → Option ℤ → Bytes → List Scene → Option (List Scene × Bytes)
  unfolding read_scene append_scene print_int
  read_scenes c i ivalue configured [] = some ([], configured)
  read_scenes c i ivalue configured (s ∷ slots) = elim (lookup c (scene_path i)) [
    | false ↦ some (map unconfigured (s ∷ slots), configured)
    | true ↦ (do
      (s', ivalue') ← read_scene c i ivalue s
      configured' ← append_scene configured s'.ds_id
      (slots', all) ← read_scenes c (i + 1) ivalue' configured' slots
      some (s' ∷ slots', all))
  ]

  -- The globals with the top-level settings, and what `ivalue` holds then.
  abbrev pub with_root : Config → Bytes → Bytes → Globals → Globals × Option ℤ
  with_root c vdc libd g =
      let reload = lookup_int c (root "reload_values") in
      let zone = lookup_int c (root "zone_id") in
      let debug = lookup_int c (root "debug") in
      let level = or_else debug g.debug_level in
      (
        record g {
          vdc_dsuid = vdc;
          lib_dsuid = libd;
          reload_values = or_else reload g.reload_values;
          default_zone_id = or_else zone g.default_zone_id;
          debug_level = if leb_ℤ level (pos 10) then level else g.debug_level;
        },
        or_stale debug (or_stale zone (or_stale reload none)),
      )

  -- The top-level settings, up to "debug"; `none` where a buffer is left without its NUL.
  unfoldable pub read_root : Config → Globals → Option (Globals × Option ℤ)
  unfolding copy_dsuid
  read_root c g = do
    vdc ← copy_dsuid (lookup_string c (root "vdcdsuid")) g.vdc_dsuid
    libd ← copy_dsuid (lookup_string c (root "libdsuid")) g.lib_dsuid
    some (with_root c vdc libd g)

  abbrev pub with_tables :
      Config → Bytes → Bytes → List SensorValue → List Scene × Bytes → Globals → Globals
  with_tables c id ip values (scenes, configured) g = record g {
    humifier = record g.humifier {
      name = or_stale (lookup_string c (humifier_path "name")) g.humifier.name;
      id = some id;
      ip = some ip;
      sensor_values = values;
      configured_scenes = some configured;
      scenes = scenes;
    };
  }

  -- From "humifier.name" on, with the two mandatory settings there.
  unfoldable pub read_tables : Config → Bytes → Bytes → Option ℤ → Globals → Option Globals
  unfolding read_sensors read_scenes
  read_tables c id ip ivalue g = do
    let (values, ivalue') = read_sensors c 0 ivalue g.humifier.sensor_values
    table ← read_scenes c 0 ivalue' (b'-' ∷ []) g.humifier.scenes
    some (with_tables c id ip values table g)

  -- The mandatory settings: without one of them the process ends.
  unfoldable pub read_mandatory :
      Bool
      → (Bytes → Bytes)
      → Config
      → Option Bytes
      → Option Bytes
      → Option ℤ
      → Globals
      → Option (ReadResult × Globals)
  unfolding read_tables make_device
  read_mandatory allocated dsuid_of c none ip ivalue g = some (exited, g)
  read_mandatory allocated dsuid_of c (some id) none ivalue g = some (exited, g)
  read_mandatory allocated dsuid_of c (some id) (some ip) ivalue g = do
    g' ← read_tables c id ip ivalue g
    make_device allocated dsuid_of id g'

  -- The parameters: what `stat` says, what `config_read_file` makes of the file, whether `malloc`
  -- succeeds, and the text of the device's dsuid.
  unfoldable pub read_config :
      FileStat → Option Config → Bool → (Bytes → Bytes) → Globals → Option (ReadResult × Globals)
  unfolding read_root read_mandatory
  read_config missing file allocated dsuid_of g = some (returned (negsuc 0), g)
  read_config irregular file allocated dsuid_of g = some (returned (negsuc 1), g)
  read_config regular none allocated dsuid_of g = some (returned (negsuc 2), g)
  read_config regular (some c) allocated dsuid_of g = do
    (g', ivalue) ← read_root c g
    read_mandatory allocated dsuid_of c (lookup_string c (humifier_path "id"))
        (lookup_string c (humifier_path "ip")) ivalue g'
