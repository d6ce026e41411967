-- ===== src/Network/Json.antt =====
-- json-c, as venta/network.c uses it: a parameter of the model.
use dss_vdc_venta.Prelude.{Option, List, ℤ, Bool}
use dss_vdc_venta.CString.{Bytes}

-- json_object_get_type, as far as the program looks at it.
pub data JsonType : Type 0 where
  int_type boolean_type other_type : JsonType

pub record JsonC : Type 1 where
  pub Json : Type 0
  -- json_tokener_parse; `none` is the null pointer
  pub tokener_parse : Bytes → Option Json
  -- the members that `json_object_object_foreach` visits, in its order; `none` for a value that is
  -- no object, for which the macro is undefined
  pub members : Json → Option (List (Bytes × Json))
  pub get_type : Json → JsonType
  pub get_int : Json → ℤ
  pub get_boolean : Json → Bool
