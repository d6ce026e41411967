-- ===== src/Tests/Fixtures.antt =====
-- Inputs for the tests: a humifier, libraries that answer in a fixed way, a loaded table.
use dss_vdc_venta.Prelude.{
  pos, negsuc, true, false, some, ◌∷◌, ℕ, List, Bool, Option, arith, ◌≡◌, none, [], ◌+◌, refl, suc,
  ap, zero, sym,
}
use dss_vdc_venta.Types.{
  Scene, zero_scene, SensorValue, VentaHumifier, VentaVdcd, Globals, main_thread, Request,
}
use dss_vdc_venta.CString.{Bytes, codes, print_int, strcmp_eq}
use dss_vdc_venta.Network.Http.{Env, performed, MemoryStruct, text, response_of}
use dss_vdc_venta.Network.Json.{JsonC, int_type}
use dss_vdc_venta.Network.Commands.Safety.{IsAnswering}
use dss_vdc_venta.Config.Libconfig.{Libconfig, SettingPath}
use dss_vdc_venta.Config.Read.Scenes.{IsNumbered}
use dss_vdc_venta.Config.Read.Startup.{IsUsable}
use dss_vdc_venta.Scenes.Loaded.{IsLoaded}

abbrev pub scene_5 : Scene
scene_5 = record zero_scene {
  ds_id = pos 5;
  fan = pos 2;
  mode_automatic = negsuc 0;
  mode_sleep = pos 1;
}

abbrev pub scene_17 : Scene
scene_17 = record zero_scene {
  ds_id = pos 17;
  fan = negsuc 0;
  mode_automatic = pos 1;
  mode_sleep = negsuc 0;
}

abbrev pub free_scene : Scene
free_scene = record zero_scene { ds_id = negsuc 0 }

abbrev pub hum_sensor : SensorValue
hum_sensor = record {
  is_active = true;
  value_name = some (codes "Hum");
  sensor_type = pos 2;
  sensor_usage = pos 1;
  value = pos 40;
  last_value = pos 40;
  last_query = pos 90;
  last_reported = pos 95;
}

abbrev pub no_sensor : SensorValue
no_sensor = record {
  is_active = false;
  value_name = none;
  sensor_type = pos 0;
  sensor_usage = pos 0;
  value = pos 0;
  last_value = pos 0;
  last_query = pos 0;
  last_reported = pos 0;
}

abbrev pub address : Bytes
address = codes "10.0.0.5"

abbrev pub humifier : VentaHumifier
humifier = record {
  id = some (codes "AH550");
  name = some (codes "Venta");
  ip = some address;
  configured_scenes = some (codes "-5-17-");
  sensor_values = hum_sensor ∷ no_sensor ∷ [];
  scenes = scene_5 ∷ scene_17 ∷ free_scene ∷ [];
  zone_id = 0;
}

abbrev pub device : VentaVdcd
device = record {
  dsuidstring = codes "D1";
  announced = false;
  present_signaled = false;
  present = true;
}

abbrev pub globals : Globals
globals = record {
  humifier = humifier;
  device = some device;
  current_values = zero_scene;
  vdc_dsuid = codes "V1";
  lib_dsuid = codes "L1";
  reload_values = pos 60;
  default_zone_id = pos 65534;
  debug_level = pos 7;
  query_values_time = pos 0;
  network_changes = true;
  shutdown_flag = 0;
  network_mutex = record { owner = main_thread; depth = 0 };
  posts = [];
}

pub humifier-IsLoaded : IsLoaded humifier (scene_5 ∷ scene_17 ∷ []) (free_scene ∷ [])
unfolding print_int
humifier-IsLoaded = record {
  split = refl;
  listed = refl;
  numbered = ((5, refl), ((17, refl), tt));
  unused = (refl, tt);
}

-- Every request is answered_text by one byte.
abbrev pub env : Env
env = record {
  attempt = λ posts. performed ((true, codes "x") ∷ []) true 200;
  scene_allocated = λ posts. true;
  time = λ posts. pos 100;
  redirects = λ posts. [];
}

-- Every text is the object 0, {"device": {"sleep": 2, "fan": 3, "hum": 4}}; a number stands for itself.
abbrev pub members_of : ℕ → Option (List (Bytes × ℕ))
members_of zero = some ((codes "device", 1) ∷ [])
members_of (suc zero) = some ((codes "sleep", 2) ∷ (codes "fan", 3) ∷ (codes "hum", 4) ∷ [])
members_of _ = none

abbrev pub json : JsonC
json = record {
  Json = ℕ;
  tokener_parse = λ bytes. some 0;
  members = members_of;
  get_type = λ j. int_type;
  get_int = λ j. pos j;
  get_boolean = λ j. false;
}

answered_text :
    (posts : List Request) (mem : MemoryStruct)
    → response_of (env.attempt posts) ≡ some mem
    → mem.memory ≡ text (codes "x")
unfolding response_of
answered_text posts mem e = cc

pub env-IsAnswering : IsAnswering env json
env-IsAnswering = record {
  answer = λ posts mem e. (
    codes "x",
    answered_text posts mem e,
    record {
      object = λ j parsed. (
        (codes "device", 1) ∷ [],
        ap members_of (sym (zero_of j parsed)),
        ((λ _. ((codes "sleep", 2) ∷ (codes "fan", 3) ∷ (codes "hum", 4) ∷ [], refl)), tt),
      );
    },
  );
}
  where
    zero_of : (j : ℕ) → ◌≡◌ {A = Option ℕ} (some 0) (some j) → 0 ≡ j
    zero_of j parsed = cc

abbrev pub lookup_of : SettingPath → Bool
lookup_of (a ∷ b ∷ n ∷ []) = strcmp_eq n (codes "s0")
lookup_of _ = false

abbrev pub text_of : SettingPath → Option Bytes
text_of (a ∷ b ∷ []) = some address
text_of _ = none

-- A configuration with one scene, all of whose numbers are 5.
abbrev pub lib : Libconfig
lib = record {
  Config = ℕ;
  init = 0;
  lookup = λ c path. lookup_of path;
  lookup_int = λ c path. some (pos 5);
  lookup_string = λ c path. text_of path;
  setting_add = λ c path kind. some (c + 1);
  setting_set_int = λ c path i. c;
  setting_set_string = λ c path s. c;
}

pub lib-IsNumbered : IsNumbered lib 0
lib-IsNumbered = record { number = λ i e. (5, refl, omega arith) }

pub lib-IsUsable : IsUsable lib 0 address address
lib-IsUsable = record {
  has_id = refl;
  has_ip = refl;
  short_id = omega arith;
  short_dsuids = λ name s e. absurd (none_there s e);
  scenes = lib-IsNumbered;
}
  where
    none_there : (s : Bytes) → ◌≡◌ {A = Option Bytes} none (some s) → ⊥
    none_there s e = cc
