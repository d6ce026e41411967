-- ===== src/Main/Reports.antt =====
-- What `push_sensor_data` reports, and when it does not end.
use dss_vdc_venta.Prelude.{
  List, ℕ, All, ℤ, ◌≡◌, ◌∷◌, length, true, ◌+◌, ◌<◌, [], false, arith, ◌++◌, suc, zero, refl,
}
use dss_vdc_venta.Main.Push.{
  Report, pushed, out_of_bounds, running, report_of, reported, push_from, push_sensor_data,
}
use dss_vdc_venta.Types.{SensorValue}

abbrev pub AllActive : List SensorValue → Type 0
AllActive values = All (λ v. v.is_active ≡ true) values

-- The reports of a row of sensors, and their slots afterwards; the k-th round is at the time `now k`.
abbrev pub reports_of : (ℕ → ℤ) → ℕ → List SensorValue → List Report
reports_of now i [] = []
reports_of now i (v ∷ values) = report_of i (now i) v ∷ reports_of now (i + 1) values

abbrev pub slots_after : (ℕ → ℤ) → ℕ → List SensorValue → List SensorValue
slots_after now i [] = []
slots_after now i (v ∷ values) = reported (now i) v ∷ slots_after now (i + 1) values

push_from_active :
    (fuel : ℕ) (now : ℕ → ℤ) (i : ℕ) (active : List SensorValue) (v : SensorValue)
    (rest : List SensorValue)
    → length active < fuel
    → AllActive active
    → v.is_active ≡ false
    → push_from fuel (λ k. true) now i i (active ++ v ∷ rest)
      ≡ pushed (slots_after now i active ++ v ∷ rest) (reports_of now i active)
unfolding push_from
push_from_active zero now i active v rest h a e = absurd (omega arith)
push_from_active (suc fuel) now i [] v rest h a e = simp e
push_from_active (suc fuel) now i (w ∷ active) v rest h a e =
    simp (a.0, push_from_active fuel now (i + 1) active v rest (omega arith) a.1 e)

-- Where every property can be made and an inactive slot ends the row of active ones, the loop ends
-- (fuel above the number of active slots is enough): each active slot is reported once, under its
-- index, in order, and marked with the time; the slots from the inactive one on stay.
pub push_sensor_data_reports :
    (fuel : ℕ) (now : ℕ → ℤ) (active : List SensorValue) (v : SensorValue) (rest : List SensorValue)
    → length active < fuel
    → AllActive active
    → v.is_active ≡ false
    → push_sensor_data fuel (λ k. true) now (active ++ v ∷ rest)
      ≡ pushed (slots_after now 0 active ++ v ∷ rest) (reports_of now 0 active)
unfolding push_sensor_data
push_sensor_data_reports fuel now active v rest h a e =
    push_from_active fuel now 0 active v rest h a e

push_from_overrun :
    (fuel : ℕ) (now : ℕ → ℤ) (k i : ℕ) (values : List SensorValue)
    → length values < fuel
    → AllActive values
    → push_from fuel (λ k. true) now k i values ≡ out_of_bounds
unfolding push_from
push_from_overrun zero now k i values h a = absurd (omega arith)
push_from_overrun (suc fuel) now k i [] h a = refl
push_from_overrun (suc fuel) now k i (v ∷ values) h a =
    simp (a.0, push_from_overrun fuel now (k + 1) (i + 1) values (omega arith) a.1)

-- With every slot of the array active the loop reads past the array.
pub push_sensor_data_overrun :
    (fuel : ℕ) (now : ℕ → ℤ) (values : List SensorValue)
    → length values < fuel
    → AllActive values
    → push_sensor_data fuel (λ k. true) now values ≡ out_of_bounds
unfolding push_sensor_data
push_sensor_data_overrun fuel now values h a = push_from_overrun fuel now 0 0 values h a

push_from_stuck :
    (fuel : ℕ) (now : ℕ → ℤ) (k i : ℕ) (v : SensorValue) (values : List SensorValue)
    → v.is_active ≡ true
    → push_from fuel (λ k. false) now k i (v ∷ values) ≡ running
unfolding push_from
push_from_stuck zero now k i v values e = refl
push_from_stuck (suc fuel) now k i v values e =
    simp e (push_from_stuck fuel now (k + 1) i v values e)

-- While no property can be made and the first slot is active, the loop does not end, whatever the
-- fuel.
pub push_sensor_data_stuck :
    (fuel : ℕ) (now : ℕ → ℤ) (v : SensorValue) (values : List SensorValue)
    → v.is_active ≡ true
    → push_sensor_data fuel (λ k. false) now (v ∷ values) ≡ running
unfolding push_sensor_data
push_sensor_data_stuck fuel now v values e = push_from_stuck fuel now 0 0 v values e
