-- ===== src/Vdc/SetProp.antt =====
-- `vdc_setprop_cb` of venta/vdsd.c. libdsvdc's view of the request is a parameter: for each
-- property, what the calls that read it give.
use dss_vdc_venta.Prelude.{
  Option, ℕ, Bool, List, ℤ, ◌%◌, ◌∷◌, true, if◌then◌else◌, some, false, none, ◌^◌, [], not, ltb,
  pos, negsuc, ◌-◌,
}
use dss_vdc_venta.Network.Parse.{unlock}
use dss_vdc_venta.Main.Loop.{try_lock}
use dss_vdc_venta.Types.{VentaVdcd, main_thread, Mutex, Globals}
use dss_vdc_venta.CString.{Bytes, codes, strcmp_eq, strcasecmp_eq}

-- dsvdc_property_get_name: an error, a null pointer (a wildcard), or a name.
pub data PropertyName : Type 0 where
  name_error wildcard : PropertyName
  named : Bytes → PropertyName

-- One property: its name, and its value by dsvdc_property_get_uint (`none` is an error).
pub record Property : Type 0 where
  pub name : PropertyName
  pub uint : Option ℕ

-- The result codes of libdsvdc that the callback uses.
pub data Code : Type 0 where
  dsvdc_ok err_not_implemented err_missing_data err_invalid_value_type err_not_found : Code

-- What the callback does besides changing the globals, in order.
pub data Effect : Type 0 where
  config_written : Effect
  set_response : Code → Effect
  get_response : Effect
  property_free : Effect

-- `int` from `uint64_t`: the low 32 bits, as gcc converts.
abbrev pub to_int : ℕ → ℤ
to_int n = let w = n % 2 ^ 32 in if ltb w (2 ^ 31) then pos w else negsuc (2 ^ 32 - w - 1)

abbrev pub set_default_zone : ℕ → Globals → Globals
set_default_zone zone g = record g { default_zone_id = to_int zone }

-- `uint16_t` from `uint64_t`.
abbrev pub set_device_zone : ℕ → Globals → Globals
set_device_zone zone g = record g { humifier = record g.humifier { zone_id = zone % 2 ^ 16 } }

abbrev pub is_zone_id : Bytes → Bool
is_zone_id name = strcmp_eq name (codes "zoneID")

-- The loop for the connector itself: it stops at the first property that it does not set.
unfoldable pub set_vdc_from : Code → List Property → Globals → Code × Globals
unfolding strcmp_eq
set_vdc_from code [] g = (code, g)
set_vdc_from code (p ∷ ps) g = elim p.name [
  | name_error ↦ (err_missing_data, g)
  | wildcard ↦ (err_not_implemented, g)
  | named name ↦ elim (is_zone_id name) [
    | false ↦ (err_not_found, g)
    | true ↦ elim p.uint [
      | none ↦ (err_invalid_value_type, g)
      | some zone ↦ set_vdc_from dsvdc_ok ps (set_default_zone zone g)
    ]
  ]
]

abbrev pub is_ok : Code → Bool
is_ok dsvdc_ok = true
is_ok _ = false

abbrev pub vdc_effects : Code → List Effect
vdc_effects code =
    if is_ok code then config_written ∷ set_response code ∷ [] else set_response code ∷ []

-- The loop for the device; `none` is its early return, which answers as a read of properties does.
unfoldable pub set_device_from : Code → List Property → Globals → Option Code × Globals
unfolding strcmp_eq
set_device_from code [] g = (some code, g)
set_device_from code (p ∷ ps) g = elim p.name [
  | name_error ↦ (none, g)
  | wildcard ↦ set_device_from code ps g
  | named name ↦ elim (is_zone_id name) [
    | false ↦ set_device_from dsvdc_ok ps g
    | true ↦ elim p.uint [
      | none ↦ (some err_invalid_value_type, g)
      | some zone ↦ set_device_from dsvdc_ok ps (set_device_zone zone g)
    ]
  ]
]

abbrev pub device_effects : Option Code → List Effect
device_effects none = get_response ∷ []
device_effects (some code) = set_response code ∷ []

-- The loop inside the mutex; `none` would be a wait for another thread.
abbrev pub set_device_locked :
    List Property → Globals → Option Mutex → Option (Globals × List Effect)
set_device_locked ps g none = none
set_device_locked ps g (some m) =
    let (code, g') = set_device_from err_not_implemented ps (record g { network_mutex = m }) in
    some (record g' { network_mutex = unlock main_thread g'.network_mutex }, device_effects code)

abbrev pub set_device :
    Bytes → List Property → Globals → Option VentaVdcd → Option (Globals × List Effect)
set_device dsuid ps g none = none
set_device dsuid ps g (some d) =
    if not (strcasecmp_eq d.dsuidstring dsuid)
    then some (g, property_free ∷ [])
    else set_device_locked ps g (try_lock main_thread g.network_mutex)

abbrev pub vdc_result : Code × Globals → Option (Globals × List Effect)
vdc_result (code, g) = some (g, vdc_effects code)

unfoldable pub vdc_setprop_cb : Bytes → List Property → Globals → Option (Globals × List Effect)
unfolding set_vdc_from set_device_from strcasecmp_eq try_lock unlock
vdc_setprop_cb dsuid ps g =
    if strcasecmp_eq g.vdc_dsuid dsuid
    then vdc_result (set_vdc_from err_not_implemented ps g)
    else set_device dsuid ps g g.device
