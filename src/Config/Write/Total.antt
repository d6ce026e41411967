-- ===== src/Config/Write/Total.antt =====
-- Where every call of config_setting_add succeeds, a configuration is made.
use dss_vdc_venta.Prelude.{
  ℕ, ◌+◌, ◌≡◌, refl, Option, some, List, [], ◌∷◌, ℤ, negsuc, ltb_ℤ, ◌==ℤ◌, Bool-cases, inl, inr,
  ◌>>=◌, Option-cases,
}
use dss_vdc_venta.CString.{Bytes}
use dss_vdc_venta.Types.{Scene, SensorValue, VentaHumifier, Globals}
use dss_vdc_venta.Config.Libconfig.{
  Libconfig, SettingPath, Kind, int_kind, string_kind, group_kind, root, humifier_path, scenes_path,
  scene_path, scene_member, sensor_path, sensor_member,
}
use dss_vdc_venta.Config.Write.{
  add_or_get, put_int, put_string, put_if_set, write_scene, write_scenes, write_sensor,
  write_sensors, write_lib_dsuid, write_root, add_humifier, write_humifier, build_config,
}

module _ (lib : Libconfig)
    (adds : (c : lib.Config) (path : SettingPath) (kind : Kind)
      → (c' : lib.Config) × (lib.setting_add c path kind ≡ some c')) where
  open lib use {Config}

  abbrev Made : Option Config → Type 0
  Made o = (c : Config) × (o ≡ some c)

  then-Made :
      (o : Option Config) (f : Config → Option Config)
      → Made o
      → ((c : Config) → Made (f c))
      → Made (o >>= f)
  then-Made o f (c, e) h = rw e (h c)

  add-Made : (path : SettingPath) (kind : Kind) (c : Config) → Made (add_or_get lib path kind c)
  unfolding add_or_get
  add-Made path kind c = let (c', e) = adds c path kind in rw (e, add_or_get) (c', refl)

  put_int-Made : (path : SettingPath) (i : ℤ) (c : Config) → Made (put_int lib path i c)
  unfolding put_int
  put_int-Made path i c = then-Made _ _ (add-Made path int_kind c) (λ c'. (_, refl))

  put_string-Made :
      (path : SettingPath) (s : Option Bytes) (c : Config) → Made (put_string lib path s c)
  unfolding put_string
  put_string-Made path s c = then-Made _ _ (add-Made path string_kind c) (λ c'. (_, refl))

  put_if_set-Made : (path : SettingPath) (i : ℤ) (c : Config) → Made (put_if_set lib path i c)
  unfolding put_if_set
  put_if_set-Made path i c = elim (Bool-cases (ltb_ℤ (negsuc 0) i)) [
    | inl set ↦ rw (set, put_if_set) (put_int-Made path i c)
    | inr unset ↦ rw (unset, put_if_set) (c, refl)
  ]

  write_scene-Made : (i : ℕ) (s : Scene) (c : Config) → Made (write_scene lib i s c)
  unfolding write_scene
  write_scene-Made i s c = then-Made _ _ (add-Made (scene_path i) group_kind c) (λ c'.
      then-Made _ _ (put_int-Made (scene_member i "dsId") s.ds_id c') (λ c''.
        then-Made _ _ (put_if_set-Made (scene_member i "fan") s.fan c'') (λ c3.
          then-Made _ _ (put_if_set-Made (scene_member i "mode_sleep") s.mode_sleep c3)
            (put_if_set-Made (scene_member i "mode_automatic") s.mode_automatic))))

  write_scenes-Made : (i : ℕ) (slots : List Scene) (c : Config) → Made (write_scenes lib i slots c)
  unfolding write_scenes
  write_scenes-Made i [] c = (c, refl)
  write_scenes-Made i (s ∷ slots) c = elim (Bool-cases (s.ds_id ==ℤ negsuc 0)) [
    | inl unused ↦ rw (unused, write_scenes) (c, refl)
    | inr used ↦
        rw (used, write_scenes)
          (then-Made _ _ (write_scene-Made i s c) (write_scenes-Made (i + 1) slots))
  ]

  write_sensor-Made :
      (i : ℕ) (name : Bytes) (v : SensorValue) (c : Config) → Made (write_sensor lib i name v c)
  unfolding write_sensor
  write_sensor-Made i name v c = then-Made _ _ (adds c (sensor_path i) group_kind) (λ c'.
      then-Made _ _ (put_string-Made (sensor_member i "value_name") (some name) c') (λ c''.
        then-Made _ _ (put_int-Made (sensor_member i "sensor_type") v.sensor_type c'')
          (put_int-Made (sensor_member i "sensor_usage") v.sensor_usage)))

  write_sensors-Made :
      (i : ℕ) (values : List SensorValue) (c : Config) → Made (write_sensors lib i values c)
  unfolding write_sensors
  write_sensors-Made i [] c = (c, refl)
  write_sensors-Made i (v ∷ values) c = elim (Option-cases v.value_name) [
    | inl nameless ↦ rw (nameless, write_sensors) (c, refl)
    | inr (name, named) ↦
        rw (named, write_sensors)
          (then-Made _ _ (write_sensor-Made i name v c) (write_sensors-Made (i + 1) values))
  ]

  write_lib_dsuid-Made : (dsuid : Bytes) (c : Config) → Made (write_lib_dsuid lib dsuid c)
  unfolding write_lib_dsuid
  write_lib_dsuid-Made [] c = (c, refl)
  write_lib_dsuid-Made (d ∷ dsuid) c = put_string-Made (root "libdsuid") (some (d ∷ dsuid)) c

  write_root-Made : (g : Globals) (c : Config) → Made (write_root lib g c)
  unfolding write_root
  write_root-Made g c =
      then-Made _ _ (put_string-Made (root "vdcdsuid") (some g.vdc_dsuid) c) (λ c'.
        then-Made _ _ (write_lib_dsuid-Made g.lib_dsuid c') (λ c''.
          then-Made _ _ (put_int-Made (root "reload_values") g.reload_values c'') (λ c3.
            then-Made _ _ (put_int-Made (root "zone_id") g.default_zone_id c3)
              (put_int-Made (root "debug") g.debug_level))))

  write_humifier-Made : (h : VentaHumifier) (c : Config) → Made (write_humifier lib h c)
  unfolding write_humifier add_humifier
  write_humifier-Made h c = then-Made _ _ (adds c (root "humifier") group_kind) (λ c'.
      then-Made _ _ (put_string-Made (humifier_path "id") h.id c') (λ c''.
        then-Made _ _ (put_string-Made (humifier_path "name") h.name c'') (λ c3.
          then-Made _ _ (put_string-Made (humifier_path "ip") h.ip c3) (λ c4.
            then-Made _ _ (add-Made scenes_path group_kind c4) (write_scenes-Made 0 h.scenes)))))

  pub build_config-Made : (g : Globals) → Made (build_config lib g)
  unfolding build_config
  build_config-Made g = then-Made _ _ (write_root-Made g lib.init) (λ c.
      then-Made _ _ (write_humifier-Made g.humifier c) (λ c'.
        then-Made _ _ (adds c' (root "sensor_values") group_kind)
          (write_sensors-Made 0 g.humifier.sensor_values)))
