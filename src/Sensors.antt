-- ===== src/Sensors.antt =====
-- `find_sensor_value_by_name` of venta/configuration.c.
pub mod Find
use dss_vdc_venta.Prelude.{ℕ, ◌+◌, Bool, false, Option, none, some, List, [], ◌∷◌, if◌then◌else◌}
use dss_vdc_venta.CString.{Bytes, strcasecmp_eq}
use dss_vdc_venta.Types.{SensorValue, VentaHumifier}

-- `value->value_name != NULL && strcasecmp(key, value->value_name) == 0`
unfoldable pub is_named : Bytes → Option Bytes → Bool
unfolding strcasecmp_eq
is_named key none = false
is_named key (some name) = strcasecmp_eq key name

-- The loop from index `i` on; the result is the index of the slot that the pointer names.
unfoldable pub find_from : Bytes → ℕ → List SensorValue → Option ℕ
find_from key i [] = none
find_from key i (v ∷ values) =
    if is_named key v.value_name then some i else find_from key (i + 1) values

unfoldable pub find_sensor_value_by_name : Bytes → VentaHumifier → Option ℕ
unfolding find_from is_named
find_sensor_value_by_name key humifier = find_from key 0 humifier.sensor_values
