-- ===== src/Vdc/GetProp/Sensors.antt =====
-- The loops over the sensor slots for "sensorDescriptions", "sensorSettings" and "sensorStates".
use dss_vdc_venta.Prelude.{
  ℕ, ◌+◌, Bool, true, false, not, ◌&&◌, Option, none, some, List, [], ◌∷◌, ◌++◌, ℤ, pos, negsuc,
  leb_ℤ, ◌==ℤ◌, ◌-ℤ◌, take, ◌>>=◌,
}
use dss_vdc_venta.CString.{Bytes, codes, digits}
use dss_vdc_venta.CString.Strtol.{strtol_int}
use dss_vdc_venta.Types.{SensorValue}
use dss_vdc_venta.Vdc.SetProp.{PropertyName, name_error, wildcard, named}
use dss_vdc_venta.Vdc.GetProp.Reply.{text, uint, int, double, group, Fields, Reply, Query, to_uint}

abbrev pub add_entry : Bytes → Fields → Option (Reply × ℕ) → Option (Reply × ℕ)
add_entry key fields none = none
add_entry key fields (some (reply, k)) = some ((key, group fields) ∷ reply, k)

-- What the three loops share: from slot `i` on, an active slot that is wanted gets an entry under its
-- index, until a slot is inactive or an entry cannot be made. Past the array the loop reads on.
unfoldable pub sensor_loop :
    (ℕ → Bool)
    → (ℕ → Bool)
    → (SensorValue → Option Fields)
    → ℕ
    → ℕ
    → List SensorValue
    → Option (Reply × ℕ)
unfolding digits
sensor_loop new_ok wanted fields_of k i [] = none
sensor_loop new_ok wanted fields_of k i (v ∷ values) = elim v.is_active [
  | false ↦ some ([], k)
  | true ↦ elim (wanted i) [
    | false ↦ sensor_loop new_ok wanted fields_of k (i + 1) values
    | true ↦ elim (fields_of v) [
      | none ↦ none
      | some fields ↦ elim (new_ok k) [
        | false ↦ some ([], k + 1)
        | true ↦
            add_entry (digits i) fields (sensor_loop new_ok wanted fields_of (k + 1) (i + 1) values)
      ]
    ]
  ]
]

abbrev pub each : ℕ → Bool
each i = true

-- snprintf(sensorName, 64, "%s-%s", ...); a null pointer cannot be printed.
unfoldable pub sensor_name : Option Bytes → Option Bytes → Option Bytes
sensor_name (some name) (some value_name) = some (take 63 (name ++ b'-' ∷ value_name))
sensor_name _ _ = none

unfoldable pub description_fields : Option Bytes → SensorValue → Option Fields
unfolding sensor_name
description_fields name v = do
  sensor_name ← sensor_name name v.value_name
  some (
      (codes "name", text sensor_name)
      ∷ (codes "sensorType", uint (to_uint v.sensor_type))
      ∷ (codes "sensorUsage", uint (to_uint v.sensor_usage))
      ∷ (codes "aliveSignInterval", double (pos 300))
      ∷ [])

abbrev pub settings_fields : SensorValue → Option Fields
settings_fields v = some (
    (codes "group", uint 8)
    ∷ (codes "minPushInterval", uint 5)
    ∷ (codes "changesOnlyInterval", double (pos 5))
    ∷ [])

abbrev pub state_fields : ℤ → SensorValue → Option Fields
state_fields now v = some (
    (codes "value", double v.value)
    ∷ (codes "age", int (now -ℤ v.last_query))
    ∷ (codes "error", int (pos 0))
    ∷ [])

-- The index that is asked for: that of the first property of the query, whichever is being
-- answered. The name of a wildcard is a null pointer, which `strtol` reads.
unfoldable pub asked_index : PropertyName → Option ℤ
unfolding strtol_int
asked_index name_error = some (negsuc 0)
asked_index wildcard = none
asked_index (named s) = some (strtol_int s)

-- `!(idx >= 0 && idx != i)`
abbrev pub is_asked : ℤ → ℕ → Bool
is_asked idx i = not (leb_ℤ (pos 0) idx && not (idx ==ℤ pos i))

module _ (q : Query) where
  unfoldable pub sensor_descriptions : Option Bytes → List SensorValue → ℕ → Option (Reply × ℕ)
  unfolding sensor_loop description_fields
  sensor_descriptions name values k = sensor_loop q.new_ok each (description_fields name) k 0 values

  unfoldable pub sensor_settings : List SensorValue → ℕ → Option (Reply × ℕ)
  unfolding sensor_loop
  sensor_settings values k = sensor_loop q.new_ok each settings_fields k 0 values

  unfoldable pub sensor_states : List SensorValue → ℕ → Option (Reply × ℕ)
  unfolding sensor_loop asked_index
  sensor_states values k = do
    idx ← asked_index q.first_element
    sensor_loop q.new_ok (is_asked idx) (state_fields (q.now k)) k 0 values
