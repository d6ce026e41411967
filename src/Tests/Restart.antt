-- ===== src/Tests/Restart.antt =====
-- The round trip of the configuration over an association list.
use dss_vdc_venta.Config.Write.Built.{stored_settings, build_config-stored_settings}
use dss_vdc_venta.Config.Read.{read_config, regular, returned}
use dss_vdc_venta.Config.Write.{build_config}
use dss_vdc_venta.Prelude.{
  Bool, ℤ, Option, [], none, if◌then◌else◌, some, ◌≡◌, ◌∷◌, false, refl, true, arith, pos, ap,
}
use dss_vdc_venta.Config.RoundTrip.Restart.{IsStorable, Restored, restart_restores}
use dss_vdc_venta.CString.{Bytes, codes}
use dss_vdc_venta.Tests.Fixtures.{
  globals, humifier, address, free_scene, scene_5, no_sensor, scene_17, hum_sensor,
}
use dss_vdc_venta.Config.Lawful.{
  SettingMap, IsLawful, find, is_there, new_setting, group_at, int_setting, string_setting, int_of,
  Holds, parent, string_of,
}
use dss_vdc_venta.Config.Libconfig.{SettingPath, Libconfig, Kind}
use dss_vdc_venta.Types.{Globals}

abbrev can_add : SettingPath → SettingMap → Bool
can_add p settings = elim (find p settings) [
  | none ↦ group_at (λ q. find q settings) (parent p)
  | some s ↦ false
]

unfoldable add : SettingMap → SettingPath → Kind → Option SettingMap
add c p kind = if can_add p c then some ((p, new_setting kind) ∷ c) else none

unfoldable set_int : SettingMap → SettingPath → ℤ → SettingMap
set_int c p i = elim (find p c) [ some (int_setting j) ↦ (p, int_setting i) ∷ c | _ ↦ c ]

unfoldable set_string : SettingMap → SettingPath → Option Bytes → SettingMap
set_string c p s = elim (find p c) [ some (string_setting t) ↦ (p, string_setting s) ∷ c | _ ↦ c ]

abbrev listed : Libconfig
listed = record {
  Config = SettingMap;
  init = [];
  lookup = λ c p. is_there (find p c);
  lookup_int = λ c p. int_of (find p c);
  lookup_string = λ c p. string_of (find p c);
  setting_add = add;
  setting_set_int = set_int;
  setting_set_string = set_string;
}

set_int_there :
    (c : SettingMap) (p : SettingPath) (i j : ℤ)
    → find p c ≡ some (int_setting j)
    → set_int c p i ≡ (p, int_setting i) ∷ c
unfolding set_int
set_int_there c p i j there = rw (there, set_int) refl

set_string_there :
    (c : SettingMap) (p : SettingPath) (s t : Option Bytes)
    → find p c ≡ some (string_setting t)
    → set_string c p s ≡ (p, string_setting s) ∷ c
unfolding set_string
set_string_there c p s t there = rw (there, set_string) refl

add_new :
    (c : SettingMap) (p : SettingPath) (kind : Kind)
    → find p c ≡ none
    → group_at (λ q. find q c) (parent p) ≡ true
    → add c p kind ≡ some ((p, new_setting kind) ∷ c)
unfolding add
add_new c p kind free grouped =
    let can : can_add p c ≡ true = rw (free, can_add) grouped in rw (can, add) refl

listed-IsLawful : IsLawful listed
listed-IsLawful = record {
  view = λ c p. find p c;
  lookup_law = λ c p. refl;
  int_law = λ c p. refl;
  string_law = λ c p h. refl;
  init_law = λ p. refl;
  add_law = λ c p kind free grouped.
      ((p, new_setting kind) ∷ c, add_new c p kind free grouped, λ r. refl);
  set_int_law = λ c p i j there r. ap (find r) (set_int_there c p i j there);
  set_string_law = λ c p s t there r. ap (find r) (set_string_there c p s t there);
}

-- A later process, before it reads its configuration.
abbrev fresh : Globals
fresh = record globals {
  humifier = record humifier {
    id = none;
    name = none;
    ip = none;
    configured_scenes = none;
    scenes = free_scene ∷ free_scene ∷ free_scene ∷ [];
    sensor_values = no_sensor ∷ no_sensor ∷ [];
  };
  vdc_dsuid = [];
  lib_dsuid = [];
}

abbrev dsuid_of : Bytes → Bytes
dsuid_of id = codes "D1"

globals-IsStorable :
    IsStorable globals
      (codes "AH550")
      (codes "Venta")
      address
      (scene_5 ∷ scene_17 ∷ [])
      (free_scene ∷ [])
      (hum_sensor ∷ [])
      (no_sensor ∷ [])
globals-IsStorable = record {
  id_is = refl;
  name_is = refl;
  ip_is = refl;
  short_id = omega arith;
  short_vdc = omega arith;
  short_lib = omega arith;
  scenes_are = refl;
  short_scenes = ((5, refl, omega arith), ((17, refl, omega arith), tt));
  free_unused = (refl, tt);
  sensors_are = refl;
  sensors_named = ((codes "Hum", refl), tt);
  rest_unnamed = (refl, tt);
}

build_config-stored_settings_example :
    (c : SettingMap) × (build_config listed globals ≡ some c)
    × Holds listed listed-IsLawful c (stored_settings globals)
build_config-stored_settings_example = build_config-stored_settings listed listed-IsLawful globals

restart_restores_example :
    (c : SettingMap) × (build_config listed globals ≡ some c)
    × (g' : Globals) × (read_config listed regular (some c) true dsuid_of fresh
        ≡ some (returned (pos 0), g'))
    × Restored globals fresh g' dsuid_of
        (codes "AH550")
        (codes "Venta")
        address
        (scene_5 ∷ scene_17 ∷ [])
        (hum_sensor ∷ [])
restart_restores_example =
    restart_restores listed listed-IsLawful globals fresh dsuid_of (codes "AH550") (codes "Venta")
      address (scene_5 ∷ scene_17 ∷ []) (free_scene ∷ []) (hum_sensor ∷ []) (no_sensor ∷ [])
      globals-IsStorable (omega arith) (omega arith)
