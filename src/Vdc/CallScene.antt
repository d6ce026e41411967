-- ===== src/Vdc/CallScene.antt =====
-- `vdc_callscene_cb` of venta/vdsd.c. It runs on the main thread, inside `dsvdc_work`.
use dss_vdc_venta.Prelude.{ℤ, Option, if◌then◌else◌, some, ltb_ℤ, ◌==ℤ◌, none, pos, true, false}
use dss_vdc_venta.Network.Action.{Action, ◌>>=◌, ◌>>◌, pure, gets, check}
use dss_vdc_venta.Network.Http.{Env}
use dss_vdc_venta.Network.Json.{JsonC}
use dss_vdc_venta.Network.Commands.{
  venta_get_data, venta_set_fan, venta_set_mode_sleep, venta_set_mode_automatic,
}
use dss_vdc_venta.Scenes.{is_scene_configured, get_scene_configuration}
use dss_vdc_venta.Types.{Scene, main_thread}
use dss_vdc_venta.CString.{Bytes, strcasecmp_eq}

module _ (env : Env) (json : JsonC) where
  -- A positive value turns the mode on and presses the button 4 twice, 0 turns it off.
  unfoldable pub apply_sleep : ℤ → Action (Unit {0})
  unfolding venta_set_mode_sleep venta_set_fan
  apply_sleep mode =
      if ltb_ℤ (pos 0) mode
      then (do
        venta_set_mode_sleep env json main_thread true
        venta_set_fan env (pos 4)
        venta_set_fan env (pos 4)
        pure tt)
      else if mode ==ℤ pos 0
      then (do venta_set_mode_sleep env json main_thread false; pure tt)
      else pure tt

  unfoldable pub apply_automatic : ℤ → Action (Unit {0})
  unfolding venta_set_mode_automatic
  apply_automatic mode =
      if ltb_ℤ (pos 0) mode
      then (do venta_set_mode_automatic env json main_thread true; pure tt)
      else if mode ==ℤ pos 0
      then (do venta_set_mode_automatic env json main_thread false; pure tt)
      else pure tt

  abbrev pub press_twice : ℤ → Action (Unit {0})
  press_twice btn = do venta_set_fan env btn; venta_set_fan env btn; pure tt

  -- One step towards level 2 from the level that was read last.
  unfoldable pub step_to_two : ℤ → Action (Unit {0})
  unfolding venta_set_fan
  step_to_two now =
      if now ==ℤ pos 1
      then (do venta_set_fan env (pos 3); pure tt)
      else if now ==ℤ pos 3
      then (do venta_set_fan env (pos 4); pure tt)
      else pure tt

  unfoldable pub apply_fan : ℤ → Action (Unit {0})
  unfolding step_to_two
  apply_fan fan =
      if fan ==ℤ pos 1
      then press_twice (pos 4)
      else if fan ==ℤ pos 2
      then (do now ← gets (λ g. g.current_values.fan); step_to_two now)
      else if fan ==ℤ pos 3
      then press_twice (pos 3)
      else pure tt

  -- The branch on `scene_data != NULL`.
  unfoldable pub run_scene : Option Scene → Action (Unit {0})
  unfolding venta_get_data apply_sleep apply_automatic apply_fan
  run_scene none = pure tt
  run_scene (some scene_data) = do
    venta_get_data env json main_thread
    apply_sleep scene_data.mode_sleep
    apply_automatic scene_data.mode_automatic
    apply_fan scene_data.fan

  unfoldable pub load_and_run : ℤ → Action (Unit {0})
  unfolding get_scene_configuration run_scene
  load_and_run scene = do
    humifier ← gets (λ g. g.humifier)
    allocated ← gets (λ g. env.scene_allocated g.posts)
    scene_data ← check (get_scene_configuration allocated scene humifier)
    run_scene scene_data

  unfoldable pub call_scene : ℤ → Action (Unit {0})
  unfolding is_scene_configured load_and_run
  call_scene scene = do
    humifier ← gets (λ g. g.humifier)
    is_configured ← check (is_scene_configured scene humifier)
    if is_configured then load_and_run scene else pure tt

  unfoldable pub vdc_callscene_cb : Bytes → ℤ → Action (Unit {0})
  unfolding call_scene strcasecmp_eq
  vdc_callscene_cb dsuid scene = do
    device ← gets (λ g. g.device)
    d ← check device
    if strcasecmp_eq d.dsuidstring dsuid then call_scene scene else pure tt
