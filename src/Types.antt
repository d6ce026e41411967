-- ===== src/Types.antt =====
-- The data of venta/venta.h, and the globals of venta/main.c and venta/util.c.
use dss_vdc_venta.Prelude.{ℕ, Bool, Option, List, ℤ, pos}
use dss_vdc_venta.CString.{Bytes}

abbrev pub max_sensor_values : ℕ
max_sensor_values = 15

abbrev pub max_scenes : ℕ
max_scenes = 128

-- struct scene. An `int` is an integer.
pub record Scene : Type 0 where
  pub ds_id : ℤ
  pub current_temperature : ℤ
  pub current_humidity : ℤ
  pub target_humidity : ℤ
  pub fan : ℤ
  pub mode_automatic : ℤ
  pub mode_sleep : ℤ

-- memset(scene, 0, sizeof(scene_t))
abbrev pub zero_scene : Scene
zero_scene = record {
  ds_id = pos 0;
  current_temperature = pos 0;
  current_humidity = pos 0;
  target_humidity = pos 0;
  fan = pos 0;
  mode_automatic = pos 0;
  mode_sleep = pos 0;
}

-- struct sensor_value. The two doubles only ever hold integers that a `double` holds exactly.
pub record SensorValue : Type 0 where
  pub is_active : Bool
  pub value_name : Option Bytes
  pub sensor_type : ℤ
  pub sensor_usage : ℤ
  pub value : ℤ
  pub last_value : ℤ
  pub last_query : ℤ
  pub last_reported : ℤ

-- struct venta_humifier. A null `char *` is `none`; the arrays are lists of their lengths.
pub record VentaHumifier : Type 0 where
  pub id : Option Bytes
  pub name : Option Bytes
  pub ip : Option Bytes
  pub configured_scenes : Option Bytes
  pub sensor_values : List SensorValue
  pub scenes : List Scene
  pub zone_id : ℕ  -- uint16_t

-- struct venta_vdcd, without the list link, and with the pointer to the one humifier left out.
pub record VentaVdcd : Type 0 where
  pub dsuidstring : Bytes
  pub announced : Bool
  pub present_signaled : Bool
  pub present : Bool

-- The two threads of the program.
pub data Thread : Type 0 where
  main_thread network_thread : Thread

-- A recursive mutex: who holds it, and how many times (0: nobody does).
pub record Mutex : Type 0 where
  pub owner : Thread
  pub depth : ℕ

-- A POST that is handed to `http_post`: its URL and the members of its JSON object, if it has one.
pub record Request : Type 0 where
  pub url : Bytes
  pub body : Option (List (Bytes × ℤ))

-- The globals. `device` is the pointer `humifier_device`; `current_values` is what
-- `humifier_current_values` points to. `posts` is no variable of the program: it holds the requests
-- made so far, in order.
pub record Globals : Type 0 where
  pub humifier : VentaHumifier
  pub device : Option VentaVdcd
  pub current_values : Scene
  pub vdc_dsuid : Bytes
  pub lib_dsuid : Bytes
  pub reload_values : ℤ
  pub default_zone_id : ℤ
  pub debug_level : ℤ
  pub query_values_time : ℤ
  pub network_changes : Bool
  pub shutdown_flag : ℕ
  pub network_mutex : Mutex
  pub posts : List Request
