-- ===== src/Vdc/Leading.antt =====
-- What a called scene keeps, where a request for the values keeps it.
use dss_vdc_venta.Prelude.{ℤ, Option, none, some, pos, true, false}
use dss_vdc_venta.Network.Action.{Action, ◌>>◌, pure}
use dss_vdc_venta.Network.Action.Leads.{
  Leads, IgnoresPosts, Leads-pure, Leads-gets, Leads-check, Leads-if, Leads-bind,
}
use dss_vdc_venta.Network.Http.{Env}
use dss_vdc_venta.Network.Json.{JsonC}
use dss_vdc_venta.Network.Commands.{venta_get_data}
use dss_vdc_venta.Network.Commands.Leading.{
  venta_set_fan-Leads, venta_set_mode_sleep-Leads, venta_set_mode_automatic-Leads,
}
use dss_vdc_venta.Scenes.{is_scene_configured, get_scene_configuration}
use dss_vdc_venta.Types.{Scene, Globals, main_thread}
use dss_vdc_venta.CString.{Bytes}
use dss_vdc_venta.Vdc.CallScene.{
  apply_sleep, apply_automatic, press_twice, step_to_two, apply_fan, run_scene, load_and_run,
  call_scene, vdc_callscene_cb,
}

module _ (env : Env) (json : JsonC) {P : Globals → Type 0} (posts : IgnoresPosts P)
    (data_read : Leads P P (venta_get_data env json main_thread)) where
  finish-Leads : {A : Type 0} (m : Action A) → Leads P P m → Leads P P (m >> pure tt)
  finish-Leads m p = Leads-bind m (λ _. pure tt) p (λ _. Leads-pure tt)

  pub press_twice-Leads : (btn : ℤ) → Leads P P (press_twice env json btn)
  press_twice-Leads btn =
      Leads-bind _ _ (venta_set_fan-Leads env posts btn)
        (λ _. finish-Leads _ (venta_set_fan-Leads env posts btn))

  pub apply_sleep-Leads : (mode : ℤ) → Leads P P (apply_sleep env json mode)
  unfolding apply_sleep
  apply_sleep-Leads mode =
      Leads-if _ _ _
        (Leads-bind _ _ (venta_set_mode_sleep-Leads env json main_thread posts data_read true)
          (λ _. press_twice-Leads (pos 4)))
        (Leads-if _ _ _
          (finish-Leads _ (venta_set_mode_sleep-Leads env json main_thread posts data_read false))
          (Leads-pure tt))

  pub apply_automatic-Leads : (mode : ℤ) → Leads P P (apply_automatic env json mode)
  unfolding apply_automatic
  apply_automatic-Leads mode =
      Leads-if _ _ _
        (finish-Leads _ (venta_set_mode_automatic-Leads env json main_thread posts data_read true))
        (Leads-if _ _ _
          (finish-Leads _
            (venta_set_mode_automatic-Leads env json main_thread posts data_read false))
          (Leads-pure tt))

  step_to_two-Leads : (now : ℤ) → Leads P P (step_to_two env json now)
  unfolding step_to_two
  step_to_two-Leads now =
      Leads-if _ _ _ (finish-Leads _ (venta_set_fan-Leads env posts (pos 3)))
        (Leads-if _ _ _ (finish-Leads _ (venta_set_fan-Leads env posts (pos 4))) (Leads-pure tt))

  pub apply_fan-Leads : (fan : ℤ) → Leads P P (apply_fan env json fan)
  unfolding apply_fan
  apply_fan-Leads fan = Leads-if _ _ _ (press_twice-Leads (pos 4)) (
      Leads-if _ _ _ (Leads-bind _ _ (Leads-gets (λ g. g.current_values.fan)) step_to_two-Leads)
        (Leads-if _ _ _ (press_twice-Leads (pos 3)) (Leads-pure tt)))

  run_scene-Leads : (s : Option Scene) → Leads P P (run_scene env json s)
  unfolding run_scene
  run_scene-Leads none = Leads-pure tt
  run_scene-Leads (some s) = Leads-bind _ _ (data_read) (λ _.
      Leads-bind _ _ (apply_sleep-Leads s.mode_sleep)
        (λ _. Leads-bind _ _ (apply_automatic-Leads s.mode_automatic) (λ _. apply_fan-Leads s.fan)))

  load_and_run-Leads : (scene : ℤ) → Leads P P (load_and_run env json scene)
  unfolding load_and_run
  load_and_run-Leads scene = Leads-bind _ _ (Leads-gets (λ g. g.humifier)) (λ h.
      Leads-bind _ _ (Leads-gets (λ g. env.scene_allocated g.posts)) (λ allocated.
        Leads-bind _ _ (Leads-check (get_scene_configuration allocated scene h)) run_scene-Leads))

  call_scene-Leads : (scene : ℤ) → Leads P P (call_scene env json scene)
  unfolding call_scene
  call_scene-Leads scene = Leads-bind _ _ (Leads-gets (λ g. g.humifier)) (λ h.
      Leads-bind _ _ (Leads-check (is_scene_configured scene h))
        (λ b. Leads-if b _ _ (load_and_run-Leads scene) (Leads-pure tt)))

  pub vdc_callscene_cb-Leads :
      (dsuid : Bytes) (scene : ℤ) → Leads P P (vdc_callscene_cb env json dsuid scene)
  unfolding vdc_callscene_cb
  vdc_callscene_cb-Leads dsuid scene = Leads-bind _ _ (Leads-gets (λ g. g.device)) (λ device.
      Leads-bind _ _ (Leads-check device)
        (λ d. Leads-if _ _ _ (call_scene-Leads scene) (Leads-pure tt)))
