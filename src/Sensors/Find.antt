-- ===== src/Sensors/Find.antt =====
-- What `find_sensor_value_by_name` finds.
use dss_vdc_venta.Prelude.{
  ℕ, List, ◌≡◌, true, some, none, zero, ◌+◌, All, ◌∷◌, false, suc, Bool-cases, arith, inl, [], inr,
  Option, Option-cases,
}
use dss_vdc_venta.Types.{SensorValue, VentaHumifier}
use dss_vdc_venta.CString.{Bytes}
use dss_vdc_venta.Sensors.{is_named, find_from, find_sensor_value_by_name, ℕ}

-- The slot at an index is the first that has the name, ignoring case.
pub data IsFirstNamed (key : Bytes) : ℕ → List SensorValue → Type 0 where
  here :
      {v : SensorValue} {values : List SensorValue}
      → is_named key v.value_name ≡ true
      → IsFirstNamed key zero (v ∷ values)
  later :
      {i : ℕ} {v : SensorValue} {values : List SensorValue}
      → is_named key v.value_name ≡ false
      → IsFirstNamed key i values
      → IsFirstNamed key (suc i) (v ∷ values)

find_from_first :
    (key : Bytes) (i j : ℕ) (values : List SensorValue)
    → find_from key i values ≡ some j
    → (k : ℕ) × (j ≡ i + k) × IsFirstNamed key k values
unfolding find_from
find_from_first key i j [] e = cc
find_from_first key i j (v ∷ values) e = elim (Bool-cases (is_named key v.value_name)) [
  | inl named ↦ (0, ground arith, here named)
  | inr other ↦
      let (k, at, first) = find_from_first key (i + 1) j values (ground arith) in
      (suc k, omega arith, later other first)
]

find_from-All :
    (key : Bytes) (i : ℕ) (values : List SensorValue)
    → find_from key i values ≡ none
    → All (λ v. is_named key v.value_name ≡ false) values
unfolding find_from
find_from-All key i [] e = tt
find_from-All key i (v ∷ values) e = (ground arith, find_from-All key (i + 1) values (ground arith))

-- What a lookup may answer: the first slot with the name, or nothing where no slot has it.
pub data Answers (key : Bytes) (values : List SensorValue) : Option ℕ → Type 0 where
  found : {i : ℕ} → IsFirstNamed key i values → Answers key values (some i)
  nowhere : All (λ v. is_named key v.value_name ≡ false) values → Answers key values none

-- The lookup answers with the first slot that has the name, letter case aside, and with nothing
-- exactly where no slot has it.
pub find_sensor_value_by_name_lem :
    (key : Bytes) (h : VentaHumifier)
    → Answers key h.sensor_values (find_sensor_value_by_name key h)
unfolding find_sensor_value_by_name
find_sensor_value_by_name_lem key h = elim (Option-cases (find_from key 0 h.sensor_values)) [
  | inl e ↦ rw e (nowhere (find_from-All key 0 h.sensor_values e))
  | inr (i, e) ↦
      let (k, at, first) = find_from_first key 0 i h.sensor_values e in
      let same : i ≡ k = omega arith in rw e (found (rw same first))
]
