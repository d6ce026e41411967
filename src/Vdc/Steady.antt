-- ===== src/Vdc/Steady.antt =====
-- A called scene that sets a mode asks for the values at least twice.
use dss_vdc_venta.Prelude.{
  ℤ, ℕ, Option, ◌≡◌, ◌⊎◌, inl, inr, some, true, false, pos, ltb_ℤ, ◌==ℤ◌, Bool-cases, suc,
  if◌then◌else◌,
}
use dss_vdc_venta.Network.Action.{Action}
use dss_vdc_venta.Network.Action.Leads.{Leads, IgnoresPosts, Leads-bind, Leads-pure}
use dss_vdc_venta.Network.Http.{Env}
use dss_vdc_venta.Network.Json.{JsonC}
use dss_vdc_venta.Network.Commands.{venta_get_data}
use dss_vdc_venta.Network.Commands.Leading.{
  venta_set_mode_sleep-Leads, venta_set_mode_automatic-Leads,
}
use dss_vdc_venta.Network.Commands.Steady.{
  IsSteady, IsSteady-IgnoresPosts, IsSteady-suc, venta_get_data-IsSteady,
}
use dss_vdc_venta.Types.{Scene, Globals, main_thread}
use dss_vdc_venta.CString.{Bytes}
use dss_vdc_venta.Vdc.CallScene.{apply_sleep, apply_automatic, run_scene}
use dss_vdc_venta.Vdc.Leading.{
  press_twice-Leads, apply_sleep-Leads, apply_automatic-Leads, apply_fan-Leads,
}

-- A mode that a scene turns on or off.
abbrev pub SetsMode : ℤ → Type 0
SetsMode mode = (ltb_ℤ (pos 0) mode ≡ true) ⊎ ((mode ==ℤ pos 0) ≡ true)

Leads-mode :
    {P Q : Globals → Type 0} {A : Type 0} (mode : ℤ) (on off other : Action A)
    → SetsMode mode
    → Leads P Q on
    → Leads P Q off
    → Leads P Q (if ltb_ℤ (pos 0) mode then on else if mode ==ℤ pos 0 then off else other)
Leads-mode mode on off other sets p q = elim (Bool-cases (ltb_ℤ (pos 0) mode)) [
  | inl positive ↦ rw positive p
  | inr not_positive ↦ elim sets [
    | inl positive ↦ absurd (cc (positive, not_positive))
    | inr zero_mode ↦ rw (not_positive, zero_mode) q
  ]
]

module _ (env : Env) (json : JsonC) (reads : ℕ → Option ℤ) (ip : Bytes) where
  abbrev At : ℕ → Globals → Type 0
  At n = IsSteady env json reads ip n

  data_read : (n : ℕ) → Leads (At n) (At (suc n)) (venta_get_data env json main_thread)
  data_read n = venta_get_data-IsSteady env json reads ip main_thread n

  data_kept : (n : ℕ) → Leads (At n) (At n) (venta_get_data env json main_thread)
  data_kept n = record {
    kept = λ a g g' s e. IsSteady-suc env json reads ip n g' ((data_read n).kept a g g' s e);
  }

  posted : (n : ℕ) → IgnoresPosts (At n)
  posted n = IsSteady-IgnoresPosts env json reads ip n

  apply_sleep-IsSteady :
      (n : ℕ) (mode : ℤ) → SetsMode mode → Leads (At n) (At (suc n)) (apply_sleep env json mode)
  unfolding apply_sleep
  apply_sleep-IsSteady n mode sets =
      Leads-mode mode _ _ _ sets
        (Leads-bind _ _
          (venta_set_mode_sleep-Leads env json main_thread (posted (suc n)) (data_read n) true)
          (λ _. press_twice-Leads env json (posted (suc n)) (data_kept (suc n)) (pos 4)))
        (Leads-bind _ _
          (venta_set_mode_sleep-Leads env json main_thread (posted (suc n)) (data_read n) false)
          (λ _. Leads-pure tt))

  apply_automatic-IsSteady :
      (n : ℕ) (mode : ℤ) → SetsMode mode → Leads (At n) (At (suc n)) (apply_automatic env json mode)
  unfolding apply_automatic
  apply_automatic-IsSteady n mode sets =
      Leads-mode mode _ _ _ sets
        (Leads-bind _ _
          (venta_set_mode_automatic-Leads env json main_thread (posted (suc n)) (data_read n) true)
          (λ _. Leads-pure tt))
        (Leads-bind _ _
          (venta_set_mode_automatic-Leads env json main_thread (posted (suc n)) (data_read n) false)
          (λ _. Leads-pure tt))

  pub run_scene-IsSteady :
      (s : Scene)
      → SetsMode s.mode_sleep ⊎ SetsMode s.mode_automatic
      → Leads (At 0) (At 2) (run_scene env json (some s))
  unfolding run_scene
  run_scene-IsSteady s (inl sleep) = Leads-bind _ _ (data_read 0) (λ _.
      Leads-bind _ _ (apply_sleep-IsSteady 1 s.mode_sleep sleep) (λ _.
        Leads-bind _ _ (apply_automatic-Leads env json (posted 2) (data_kept 2) s.mode_automatic)
          (λ _. apply_fan-Leads env json (posted 2) (data_kept 2) s.fan)))
  run_scene-IsSteady s (inr automatic) = Leads-bind _ _ (data_read 0) (λ _.
      Leads-bind _ _ (apply_sleep-Leads env json (posted 1) (data_kept 1) s.mode_sleep) (λ _.
        Leads-bind _ _ (apply_automatic-IsSteady 1 s.mode_automatic automatic)
          (λ _. apply_fan-Leads env json (posted 2) (data_kept 2) s.fan)))
