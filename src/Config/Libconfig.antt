-- ===== src/Config/Libconfig.antt =====
-- libconfig, as venta/configuration.c uses it: a parameter of the model. A path is the list of the
-- names between its dots, and a setting's handle is its path.
use dss_vdc_venta.Prelude.{List, Bool, ℕ, String, Option, ◌++◌, ◌∷◌, ℤ, []}
use dss_vdc_venta.CString.{Bytes, codes, digits}

abbrev pub SettingPath : Type 0
SettingPath = List Bytes

pub data Kind : Type 0 where
  int_kind string_kind group_kind : Kind

pub record Libconfig : Type 1 where
  pub Config : Type 0
  -- config_init
  pub init : Config
  -- config_lookup and config_setting_get_member: is there such a setting?
  pub lookup : Config → SettingPath → Bool
  pub lookup_int : Config → SettingPath → Option ℤ
  pub lookup_string : Config → SettingPath → Option Bytes
  -- config_setting_add; `none` is the null pointer
  pub setting_add : Config → SettingPath → Kind → Option Config
  pub setting_set_int : Config → SettingPath → ℤ → Config
  pub setting_set_string : Config → SettingPath → Option Bytes → Config

-- "s%d"
abbrev pub slot_name : ℕ → Bytes
slot_name i = codes "s" ++ digits i

abbrev pub root : String → SettingPath
root name = codes name ∷ []

abbrev pub humifier_path : String → SettingPath
humifier_path name = codes "humifier" ∷ codes name ∷ []

abbrev pub scenes_path : SettingPath
scenes_path = humifier_path "scenes"

abbrev pub scene_path : ℕ → SettingPath
scene_path i = codes "humifier" ∷ codes "scenes" ∷ slot_name i ∷ []

abbrev pub scene_member : ℕ → String → SettingPath
scene_member i name = codes "humifier" ∷ codes "scenes" ∷ slot_name i ∷ codes name ∷ []

abbrev pub sensor_path : ℕ → SettingPath
sensor_path i = codes "sensor_values" ∷ slot_name i ∷ []

abbrev pub sensor_member : ℕ → String → SettingPath
sensor_member i name = codes "sensor_values" ∷ slot_name i ∷ codes name ∷ []
