-- ===== src/Config/Read/Startup.antt =====
-- What `read_config` leaves behind, and that scenes can be called safely from there.
use dss_vdc_venta.CString.Search.{fields}
use dss_vdc_venta.Prelude.{
  ◌≡◌, List, some, length, true, ◌<◌, pos, ◌∷◌, [], String, Option, ◌∙◌, ℤ, arith, none, refl, ◌++◌,
  false, negsuc, ap,
}
use dss_vdc_venta.Config.Libconfig.{Libconfig, root, humifier_path}
use dss_vdc_venta.Config.Read.{
  regular, returned, copy_dsuid, vdcd_of, read_sensors, read_root, read_tables, make_device,
  read_mandatory, read_config, Option, ℤ, with_root, with_tables, or_stale,
}
use dss_vdc_venta.Config.Read.Scenes.{IsNumbered, AllRead, read_scenes-Table}
use dss_vdc_venta.Scenes.Loaded.{IsLoaded, scene_fields}
use dss_vdc_venta.CString.{Bytes}
use dss_vdc_venta.Types.{Scene, Globals, VentaHumifier}

module _ (lib : Libconfig) where
  open lib use {Config, lookup_int, lookup_string}

  -- A configuration with both mandatory settings, texts that fit their buffers, and scene numbers
  -- from 0 to 99.
  pub record IsUsable (c : Config) (id ip : Bytes) : Type 0 where
    pub has_id : lookup_string c (humifier_path "id") ≡ some id
    pub has_ip : lookup_string c (humifier_path "ip") ≡ some ip
    pub short_id : length id < 128
    pub short_dsuids :
        (name : String) (s : Bytes) → lookup_string c (root name) ≡ some s → length s < 35
    pub scenes : IsNumbered lib c

  -- What is known after a successful start.
  pub record Started (c : Config) (id ip : Bytes) (dsuid_of : Bytes → Bytes) (g g' : Globals)
      : Type 0 where
    pub loaded : List Scene
    pub free : List Scene
    pub table : IsLoaded g'.humifier loaded free
    pub from_file : AllRead lib c 0 loaded
    pub address : g'.humifier.ip ≡ some ip
    pub identified : g'.humifier.id ≡ some id
    pub titled :
        g'.humifier.name ≡ or_stale (lookup_string c (humifier_path "name")) g.humifier.name
    pub before : Option ℤ
    pub sensors :
        g'.humifier.sensor_values ≡ (read_sensors lib c 0 before g.humifier.sensor_values).0
    pub device : g'.device ≡ some (vdcd_of (dsuid_of id))
    pub same_mutex : g'.network_mutex ≡ g.network_mutex
    pub nothing_sent : g'.posts ≡ g.posts

  record RootRead (c : Config) (g : Globals) : Type 0 where
    after : Globals
    ivalue : Option ℤ
    ran : read_root lib c g ≡ some (after, ivalue)
    humifier : after.humifier ≡ g.humifier
    mutex : after.network_mutex ≡ g.network_mutex
    posts : after.posts ≡ g.posts

  copy_dsuid_total :
      (found : Option Bytes) (old : Bytes)
      → ((s : Bytes) → found ≡ some s → length s < 35)
      → (new : Bytes) × (copy_dsuid found old ≡ some new)
  unfolding copy_dsuid
  copy_dsuid_total none old h = (old, refl)
  copy_dsuid_total (some s) old h = (s, ground (arith, h s refl))

  read_root_total : (c : Config) (id ip : Bytes) (g : Globals) → IsUsable c id ip → RootRead c g
  unfolding read_root
  read_root_total c id ip g u =
      let (vdc, copied) =
        copy_dsuid_total (lookup_string c (root "vdcdsuid")) g.vdc_dsuid
          (u.short_dsuids "vdcdsuid") in
      let (libd, copied') =
        copy_dsuid_total (lookup_string c (root "libdsuid")) g.lib_dsuid
          (u.short_dsuids "libdsuid") in
      record {
        after = (with_root lib c vdc libd g).0;
        ivalue = (with_root lib c vdc libd g).1;
        ran = simp (copied, copied');
        humifier = refl;
        mutex = refl;
        posts = refl;
      }

  record TablesRead (c : Config) (id ip : Bytes) (iv : Option ℤ) (g : Globals) : Type 0 where
    after : Globals
    ran : read_tables lib c id ip iv g ≡ some after
    loaded : List Scene
    free : List Scene
    table : IsLoaded after.humifier loaded free
    from_file : AllRead lib c 0 loaded
    address : after.humifier.ip ≡ some ip
    identified : after.humifier.id ≡ some id
    titled : after.humifier.name ≡ or_stale (lookup_string c (humifier_path "name")) g.humifier.name
    sensors : after.humifier.sensor_values ≡ (read_sensors lib c 0 iv g.humifier.sensor_values).0
    mutex : after.network_mutex ≡ g.network_mutex
    posts : after.posts ≡ g.posts

  read_tables_total :
      (c : Config) (id ip : Bytes) (iv : Option ℤ) (g : Globals)
      → IsNumbered lib c
      → TablesRead c id ip iv g
  unfolding read_tables
  read_tables_total c id ip iv g n =
      let (values, iv') = read_sensors lib c 0 iv g.humifier.sensor_values in
      let t = read_scenes-Table lib c n 0 iv' (b'-' ∷ []) g.humifier.scenes in
      record {
        after =
            with_tables lib c id ip values
              (t.loaded ++ t.free, b'-' ∷ fields (scene_fields t.loaded)) g;
        ran = simp t.result;
        loaded = t.loaded;
        free = t.free;
        table = record { split = refl; listed = refl; numbered = t.numbered; unused = t.unused };
        from_file = t.all_read;
        address = refl;
        identified = refl;
        titled = refl;
        sensors = refl;
        mutex = refl;
        posts = refl;
      }

  -- A usable configuration is read without undefined behaviour and with result 0: the device is
  -- made, the address is set, the scene table is loaded with the scenes of the file.
  pub read_config-Started :
      (c : Config) (id ip : Bytes) (dsuid_of : Bytes → Bytes) (g : Globals)
      → IsUsable c id ip
      → (g' : Globals) × (read_config lib regular (some c) true dsuid_of g
          ≡ some (returned (pos 0), g'))
        × Started c id ip dsuid_of g g'
  unfolding read_config read_mandatory make_device
  read_config-Started c id ip dsuid_of g u =
      let r = read_root_total c id ip g u in
      let t = read_tables_total c id ip r.ivalue r.after u.scenes in
      (
        record t.after { device = some (vdcd_of (dsuid_of id)) },
        simp (r.ran, u.has_id, u.has_ip, t.ran) (ground (arith, u.short_id)),
        record {
          loaded = t.loaded;
          free = t.free;
          table = record {
            split = t.table.split;
            listed = t.table.listed;
            numbered = t.table.numbered;
            unused = t.table.unused;
          };
          from_file = t.from_file;
          address = t.address;
          identified = t.identified;
          titled =
              t.titled
              ∙ ap (λ (h : VentaHumifier). or_stale (lookup_string c (humifier_path "name")) h.name)
                  r.humifier;
          before = r.ivalue;
          sensors =
              t.sensors
              ∙ ap (λ (h : VentaHumifier). (read_sensors lib c 0 r.ivalue h.sensor_values).0)
                  r.humifier;
          device = refl;
          same_mutex = t.mutex ∙ r.mutex;
          nothing_sent = t.posts ∙ r.posts;
        },
      )

  -- Where there is no memory for the device, the same configuration gives the result for a missing
  -- file.
  pub read_config-no_device :
      (c : Config) (id ip : Bytes) (dsuid_of : Bytes → Bytes) (g : Globals)
      → IsUsable c id ip
      → (g' : Globals) × (read_config lib regular (some c) false dsuid_of g
          ≡ some (returned (negsuc 0), g'))
        × (g'.humifier.ip ≡ some ip)
  unfolding read_config read_mandatory make_device
  read_config-no_device c id ip dsuid_of g u =
      let r = read_root_total c id ip g u in
      let t = read_tables_total c id ip r.ivalue r.after u.scenes in
      (
        record t.after { device = none },
        simp (r.ran, u.has_id, u.has_ip, t.ran) (ground (arith, u.short_id)),
        t.address,
      )
