-- ===== src/Main/Start/Outcomes.antt =====
-- How the start ends.
use dss_vdc_venta.Prelude.{
  ℕ, ◌≤◌, ◌≡◌, ◌⊎◌, inl, inr, refl, true, false, none, some, List, [], pos, negsuc, length, suc,
  arith, ◌∙◌, Option, ℤ, replicate,
}
use dss_vdc_venta.CString.{Bytes}
use dss_vdc_venta.Types.{Scene, Globals, max_sensor_values}
use dss_vdc_venta.Config.Libconfig.{Libconfig, humifier_path}
use dss_vdc_venta.Config.Read.{
  ReadResult, returned, irregular, regular, vdcd_of, read_config, or_stale, read_sensors,
}
use dss_vdc_venta.Config.Read.Startup.{IsUsable, read_config-no_device}
use dss_vdc_venta.Config.Write.{build_config}
use dss_vdc_venta.Config.Write.Files.{write_config-returns, done_ops}
use dss_vdc_venta.Scenes.Loaded.{IsLoaded}
use dss_vdc_venta.Main.Start.{
  Argument, Settings, ended, Host, read_options, start, cleared, with_dsuids, with_values, set_up,
  after_read, write_template, zero_sensor,
}

module _ (lib : Libconfig) (host : Host lib) (arguments : List Argument) (s s' : Settings)
    (options : read_options arguments s ≡ some s') (sigint : host.sigint_ok ≡ true)
    (sigterm : host.sigterm_ok ≡ true) where
  -- A file that is there but is no regular file, or is no configuration: it says so and ends.
  abbrev pub IsUnreadable : Type 0
  IsUnreadable = (host.stat ≡ irregular) ⊎ ((host.stat ≡ regular) × (host.file ≡ none))

  start-set_up : (g : Globals) → start lib host arguments s g ≡ set_up lib host s' g
  unfolding start
  start-set_up g = rw (options, start) refl

  set_up-after_read :
      (g g' : Globals) (result : ReadResult)
      → read_config lib host.stat host.file host.device_allocated host.dsuid_of
          (cleared lib s'.debug g)
        ≡ some (result, g')
      → set_up lib host s' g ≡ after_read lib host s'.cfgfile_name result g'
  unfolding set_up
  set_up-after_read g g' result e = rw (sigint, sigterm, e, set_up) refl

  unreadable :
      (g : Globals)
      → IsUnreadable
      → (rc : ℕ) × (read_config lib host.stat host.file host.device_allocated host.dsuid_of
            (cleared lib s'.debug g)
          ≡ some (returned (negsuc (suc rc)), cleared lib s'.debug g))
  unfolding read_config
  unreadable g (inl no_file) = (0, rw no_file refl)
  unreadable g (inr (file, bad)) = (1, rw (file, bad) refl)

  -- With good options and signal handlers, a configuration file that is there but cannot be read ends
  -- the process, with status 0, and no file is touched.
  pub start_keeps_unreadable :
      (g : Globals)
      → IsUnreadable
      → start lib host arguments s g
        ≡ some (record { globals = cleared lib s'.debug g; ops = []; outcome = ended (pos 0) })
  unfolding after_read
  start_keeps_unreadable g bad =
      let (rc, failed) = unreadable g bad in
      start-set_up g
      ∙ set_up-after_read g (cleared lib s'.debug g) (returned (negsuc (suc rc))) failed
      ∙ ground arith

  -- A configuration can be made from any globals: no call of libconfig fails.
  abbrev pub IsWritable : Type 0
  IsWritable = (g : Globals) → (c : lib.Config) × (build_config lib g ≡ some c)

  -- The rest of what the start needs.
  pub record IsReady : Type 0 where
    pub writable : IsWritable
    pub short_name : length s'.cfgfile_name ≤ 4087
    pub values : host.values_allocated ≡ true
    pub short_host : length host.hostname ≤ 63
    pub library : host.library_ok ≡ true
    pub thread : host.thread_ok ≡ true

  -- The loop's start: the globals that the configuration gave, with both identifiers made where they
  -- were not there, the readings cleared and the mutex free.
  abbrev pub loop_globals : Globals → Globals
  loop_globals g = with_values lib (with_dsuids lib host g)

  -- What the loop starts from.
  pub record IsRunning (c : lib.Config) (id ip : Bytes) (g : Globals) : Type 0 where
    pub loaded : List Scene
    pub free : List Scene
    pub table : IsLoaded g.humifier loaded free
    pub address : g.humifier.ip ≡ some ip
    pub identified : g.humifier.id ≡ some id
    pub titled : g.humifier.name ≡ or_stale (lib.lookup_string c (humifier_path "name")) none
    pub before : Option ℤ
    pub sensors :
        g.humifier.sensor_values
        ≡ (read_sensors lib c 0 before (replicate max_sensor_values zero_sensor)).0
    pub device : g.device ≡ some (vdcd_of (host.dsuid_of id))
    pub mutex_free : g.network_mutex.depth ≡ 0

  -- Without memory for the device, the process takes a usable configuration for a missing one: it
  -- writes the configuration again and ends with status 0.
  pub start_out_of_memory :
      (c : lib.Config) (id ip : Bytes) (g : Globals)
      → IsUsable lib c id ip
      → host.stat ≡ regular
      → host.file ≡ some c
      → host.device_allocated ≡ false
      → IsWritable
      → length s'.cfgfile_name ≤ 4087
      → (g' : Globals) × (c' : lib.Config) × (start lib host arguments s g
          ≡ some (record {
            globals = g';
            ops = done_ops lib host.written s'.cfgfile_name c';
            outcome = ended (pos 0);
          }))
        × (g'.humifier.ip ≡ some ip)
        × (build_config lib g' ≡ some c')
  unfolding after_read write_template
  start_out_of_memory c id ip g usable stat file memory writable short =
      let (g', ran, address) =
        read_config-no_device lib c id ip host.dsuid_of (cleared lib s'.debug g) usable in
      let (c', built) = writable g' in
      let wrote = write_config-returns lib host.written s'.cfgfile_name g' c' built short in
      (
        g',
        c',
        start-set_up g
            ∙ set_up-after_read g g' (returned (negsuc 0)) (rw (stat, file, memory) ran)
            ∙ simp wrote,
        address,
        built,
      )
