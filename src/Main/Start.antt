-- ===== src/Main/Start.antt =====
-- The start of `main` in venta/main.c, up to its loop: the options, the configuration, the library
-- and the thread.
pub mod Outcomes
use dss_vdc_venta.Prelude.{
  ℕ, zero, suc, ◌+◌, Bool, true, false, Option, none, some, List, [], ◌∷◌, ◌++◌, ℤ, pos, negsuc,
  ltb_ℤ, ◌==ℤ◌, leb, length, replicate, if◌then◌else◌, guard, ◌>>=◌, ◌>>◌,
}
use dss_vdc_venta.CString.{Bytes, codes}
use dss_vdc_venta.CString.Strtol.{strtol_int}
use dss_vdc_venta.Types.{
  SensorValue, VentaHumifier, Globals, zero_scene, max_sensor_values, max_scenes, main_thread,
}
use dss_vdc_venta.Config.Libconfig.{Libconfig}
use dss_vdc_venta.Config.Read.{FileStat, ReadResult, returned, exited, read_config}
use dss_vdc_venta.Config.Write.{FileOp, write_config}

-- What getopt_long gives: the options that its tables have, and anything else.
pub data Argument : Type 0 where
  cfgfile debuglevel : Bytes → Argument
  help unknown : Argument

pub record Settings : Type 0 where
  pub cfgfile_name : Bytes
  pub debug : ℤ

-- The loop over the options; `none` is exit(EXIT_FAILURE). `atoi` reads like `strtol`.
unfoldable pub read_options : List Argument → Settings → Option Settings
unfolding strtol_int
read_options [] s = some s
read_options (cfgfile name ∷ rest) s = read_options rest (record s { cfgfile_name = name })
read_options (debuglevel level ∷ rest) s = read_options rest (record s { debug = strtol_int level })
read_options (help ∷ rest) s = none
read_options (unknown ∷ rest) s = none

-- memset(&venta, 0, sizeof(venta_data_t))
abbrev pub zero_sensor : SensorValue
zero_sensor = record {
  is_active = false;
  value_name = none;
  sensor_type = pos 0;
  sensor_usage = pos 0;
  value = pos 0;
  last_value = pos 0;
  last_query = pos 0;
  last_reported = pos 0;
}

abbrev pub zero_humifier : VentaHumifier
zero_humifier = record {
  id = none;
  name = none;
  ip = none;
  configured_scenes = none;
  sensor_values = replicate max_sensor_values zero_sensor;
  scenes = replicate max_scenes zero_scene;
  zone_id = 0;
}

-- The process ends with a status, or comes to its loop.
pub data Outcome : Type 0 where
  ended : ℤ → Outcome
  in_loop : Outcome

module _ (lib : Libconfig) where
  open lib use {Config}

  -- What the start meets: the signal handlers, the file, the allocator, libdSUID, the host's name,
  -- whether configurations are written well, libdsvdc, and the thread.
  pub record Host : Type 0 where
    pub sigint_ok : Bool
    pub sigterm_ok : Bool
    pub stat : FileStat
    pub file : Option Config
    pub device_allocated : Bool
    pub dsuid_of : Bytes → Bytes
    pub new_vdc_dsuid : Bytes
    pub new_lib_dsuid : Bytes
    pub written : Bool
    pub values_allocated : Bool
    pub hostname : Bytes
    pub library_ok : Bool
    pub thread_ok : Bool

  -- The globals, what was done to the files, and how it went on.
  pub record Start : Type 0 where
    pub globals : Globals
    pub ops : List (FileOp lib)
    pub outcome : Outcome

  abbrev pub stop : ℤ → List (FileOp lib) → Globals → Option Start
  stop status ops g = some (record { globals = g; ops = ops; outcome = ended status })

  -- An identifier that is not there yet is made.
  abbrev pub dsuid_or : Bytes → Bytes → Bytes
  dsuid_or [] generated = generated
  dsuid_or (c ∷ s) generated = c ∷ s

  abbrev pub with_dsuids : Host → Globals → Globals
  with_dsuids host g = record g {
    vdc_dsuid = dsuid_or g.vdc_dsuid host.new_vdc_dsuid;
    lib_dsuid = dsuid_or g.lib_dsuid host.new_lib_dsuid;
  }

  abbrev pub with_values : Globals → Globals
  with_values g = record g {
    current_values = zero_scene;
    network_mutex = record { owner = main_thread; depth = 0 };
  }

  -- From the values' allocation on. `hostname` has HOST_NAME_MAX bytes, 64, and `gethostname` leaves
  -- no NUL in it where the name has as many; `servicename` has HOST_NAME_MAX + 32 bytes.
  unfoldable pub open_library : Host → List (FileOp lib) → Globals → Option Start
  open_library host ops g =
      if host.values_allocated
      then (do
        guard (leb (length host.hostname + 1) 64)
        guard (leb (length (codes "Venta humifier Controller @" ++ host.hostname) + 1) 96)
        if host.library_ok
            then if host.thread_ok
              then some (record { globals = with_values g; ops = ops; outcome = in_loop })
              else stop (pos 1) ops (with_values g)
            else stop (pos 1) ops g)
      else stop (negsuc 0) ops g

  -- With a configuration. Its result is 0 in any case, so `main` goes on.
  unfoldable pub go_on : Host → Bytes → Globals → Option Start
  unfolding open_library
  go_on host name g = do
    id ← g.humifier.id
    (rc, ops) ← write_config lib host.written name (with_dsuids host g)
    open_library host ops (with_dsuids host g)

  -- A template is written where the configuration is said to be missing.
  unfoldable pub write_template : Host → Bytes → Globals → Option Start
  write_template host name g = do
    (rc, ops) ← write_config lib host.written name g
    stop (pos 0) ops g

  unfoldable pub after_read : Host → Bytes → ReadResult → Globals → Option Start
  unfolding go_on write_template
  after_read host name exited g = stop (pos 0) [] g
  after_read host name (returned rc) g =
      if ltb_ℤ rc (negsuc 0)
      then stop (pos 0) [] g
      else if rc ==ℤ negsuc 0
      then write_template host name g
      else go_on host name g

  abbrev pub cleared : ℤ → Globals → Globals
  cleared debug g = record g { humifier = zero_humifier; debug_level = debug }

  -- With the options read.
  unfoldable pub set_up : Host → Settings → Globals → Option Start
  unfolding after_read
  set_up host s g =
      if host.sigint_ok
      then if host.sigterm_ok
        then (do
          (result, g') ←
              read_config lib host.stat host.file host.device_allocated host.dsuid_of
                (cleared s.debug g)
          after_read host s.cfgfile_name result g')
        else stop (pos 1) [] g
      else stop (pos 1) [] g

  unfoldable pub start : Host → List Argument → Settings → Globals → Option Start
  unfolding read_options set_up
  start host arguments s g = elim (read_options arguments s) [
    | none ↦ stop (pos 1) [] g
    | some s' ↦ set_up host s' g
  ]
