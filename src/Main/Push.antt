-- ===== src/Main/Push.antt =====
-- `push_sensor_data` of venta/main.c.
use dss_vdc_venta.Prelude.{ℕ, List, ◌∷◌, ℤ, ◌-ℤ◌, Bool, suc, false, [], ◌+◌, zero, true}
use dss_vdc_venta.Types.{SensorValue}

-- The properties of one sensor in the pushed envelope; "error" is always 0.
pub record Report : Type 0 where
  pub index : ℕ
  pub value : ℤ
  pub age : ℤ

-- The loop ends, reads past the array, or is still running when the fuel is used up.
pub data PushResult : Type 0 where
  pushed : List SensorValue → List Report → PushResult
  out_of_bounds : PushResult
  running : PushResult

abbrev pub with_report : SensorValue → Report → PushResult → PushResult
with_report v r (pushed values reports) = pushed (v ∷ values) (r ∷ reports)
with_report v r out_of_bounds = out_of_bounds
with_report v r running = running

abbrev pub report_of : ℕ → ℤ → SensorValue → Report
report_of i now v = record { index = i; value = v.value; age = now -ℤ v.last_query }

abbrev pub reported : ℤ → SensorValue → SensorValue
reported now v = record v { last_reported = now }

-- `new_ok k` says whether the k-th call of `dsvdc_property_new` in the loop succeeds, and `now k` is
-- the time of that round. A failing call goes round again with the same index.
unfoldable pub push_from : ℕ → (ℕ → Bool) → (ℕ → ℤ) → ℕ → ℕ → List SensorValue → PushResult
push_from zero new_ok now k i values = running
push_from (suc fuel) new_ok now k i [] = out_of_bounds
push_from (suc fuel) new_ok now k i (v ∷ values) = elim v.is_active [
  | false ↦ pushed (v ∷ values) []
  | true ↦ elim (new_ok k) [
    | false ↦ push_from fuel new_ok now (k + 1) i (v ∷ values)
    | true ↦
        with_report (reported (now k) v) (report_of i (now k) v)
          (push_from fuel new_ok now (k + 1) (i + 1) values)
  ]
]

unfoldable pub push_sensor_data : ℕ → (ℕ → Bool) → (ℕ → ℤ) → List SensorValue → PushResult
unfolding push_from
push_sensor_data fuel new_ok now values = push_from fuel new_ok now 0 0 values
