-- ===== src/Vdc/SceneSafety.antt =====
-- A called scene on a loaded table: undefined behaviour, and the requests.
use dss_vdc_venta.Prelude.{
  pos, length, arith, ◌≤◌, refl, ℤ, Option, ◌≡◌, true, some, false, none, List, Bool-cases, inl,
  inr, ◌∙◌, ap,
}
use dss_vdc_venta.Network.Action.{Action, ◌>>◌, pure}
use dss_vdc_venta.Network.Http.{Env}
use dss_vdc_venta.Network.Json.{JsonC}
use dss_vdc_venta.Network.Safe.{
  IsSafe, IsSafe-bind, IsSafe-if, IsSafe-gets, IsSafe-pure, IsButton, Advances, Advances-refl,
}
use dss_vdc_venta.Network.Commands.Safety.{
  IsAnswering, venta_get_data-IsSafe, venta_set_fan-IsSafe, venta_set_mode_sleep-IsSafe,
  venta_set_mode_automatic-IsSafe,
}
use dss_vdc_venta.Scenes.Loaded.{IsLoaded, has_scene}
use dss_vdc_venta.Scenes.Configured.{
  FitsBuffer, is_scene_configured-has_scene, get_scene_configuration_found, scene_data,
}
use dss_vdc_venta.Scenes.{is_scene_configured, get_scene_configuration}
use dss_vdc_venta.Types.{Scene, Globals, main_thread, VentaVdcd}
use dss_vdc_venta.CString.{Bytes, strcasecmp_eq}
use dss_vdc_venta.Vdc.CallScene.{
  apply_sleep, apply_automatic, press_twice, step_to_two, apply_fan, run_scene, load_and_run,
  call_scene, vdc_callscene_cb,
}

fan_up : IsButton (pos 3)
fan_up = (3, refl, omega arith, omega arith)

fan_down : IsButton (pos 4)
fan_down = (4, refl, omega arith, omega arith)

module _ (env : Env) (json : JsonC) (ip : Bytes) (short : length ip ≤ 83)
    (answers : IsAnswering env json) where
  finish-IsSafe : {A : Type 0} (m : Action A) → IsSafe ip m → IsSafe ip (m >> pure tt)
  finish-IsSafe m p = IsSafe-bind ip m (λ _. pure tt) p (λ _. IsSafe-pure ip tt)

  press_twice-IsSafe : (btn : ℤ) → IsButton btn → IsSafe ip (press_twice env json btn)
  press_twice-IsSafe btn b =
      IsSafe-bind ip _ _ (venta_set_fan-IsSafe env ip short btn b)
        (λ _. finish-IsSafe _ (venta_set_fan-IsSafe env ip short btn b))

  apply_sleep-IsSafe : (mode : ℤ) → IsSafe ip (apply_sleep env json mode)
  unfolding apply_sleep
  apply_sleep-IsSafe mode =
      IsSafe-if ip _ _ _
        (IsSafe-bind ip _ _ (venta_set_mode_sleep-IsSafe env ip short json answers main_thread true)
          (λ _. press_twice-IsSafe (pos 4) fan_down))
        (IsSafe-if ip _ _ _
          (finish-IsSafe _
            (venta_set_mode_sleep-IsSafe env ip short json answers main_thread false))
          (IsSafe-pure ip tt))

  apply_automatic-IsSafe : (mode : ℤ) → IsSafe ip (apply_automatic env json mode)
  unfolding apply_automatic
  apply_automatic-IsSafe mode =
      IsSafe-if ip _ _ _
        (finish-IsSafe _
          (venta_set_mode_automatic-IsSafe env ip short json answers main_thread true))
        (IsSafe-if ip _ _ _
          (finish-IsSafe _
            (venta_set_mode_automatic-IsSafe env ip short json answers main_thread false))
          (IsSafe-pure ip tt))

  step_to_two-IsSafe : (now : ℤ) → IsSafe ip (step_to_two env json now)
  unfolding step_to_two
  step_to_two-IsSafe now =
      IsSafe-if ip _ _ _ (finish-IsSafe _ (venta_set_fan-IsSafe env ip short (pos 3) fan_up)) (
        IsSafe-if ip _ _ _ (finish-IsSafe _ (venta_set_fan-IsSafe env ip short (pos 4) fan_down))
          (IsSafe-pure ip tt))

  apply_fan-IsSafe : (fan : ℤ) → IsSafe ip (apply_fan env json fan)
  unfolding apply_fan
  apply_fan-IsSafe fan = IsSafe-if ip _ _ _ (press_twice-IsSafe (pos 4) fan_down) (
      IsSafe-if ip _ _ _
        (IsSafe-bind ip _ _ (IsSafe-gets ip (λ g. g.current_values.fan)) step_to_two-IsSafe)
        (IsSafe-if ip _ _ _ (press_twice-IsSafe (pos 3) fan_up) (IsSafe-pure ip tt)))

  run_scene-IsSafe : (found : Option Scene) → IsSafe ip (run_scene env json found)
  unfolding run_scene
  run_scene-IsSafe none = IsSafe-pure ip tt
  run_scene-IsSafe (some s) =
      IsSafe-bind ip _ _ (venta_get_data-IsSafe env ip short json answers main_thread) λ _.
        IsSafe-bind ip _ _ (apply_sleep-IsSafe s.mode_sleep) λ _.
          IsSafe-bind ip _ _ (apply_automatic-IsSafe s.mode_automatic) λ _. apply_fan-IsSafe s.fan

  module _ (g : Globals) (address : g.humifier.ip ≡ some ip) (loaded free : List Scene)
      (table : IsLoaded g.humifier loaded free) where
    load_and_run_total :
        (scene : ℤ)
        → FitsBuffer scene
        → is_scene_configured scene g.humifier ≡ some true
        → (g' : Globals) × (load_and_run env json scene g ≡ some (tt, g')) × Advances ip g g'
    unfolding load_and_run get_scene_configuration
    load_and_run_total scene fits configured = elim (Bool-cases (env.scene_allocated g.posts)) [
      | inl allocated ↦
          let (s, first, found) =
            get_scene_configuration_found g.humifier loaded free table scene fits configured in
          let (_, g', ran, steps) = (run_scene-IsSafe (some (scene_data s))).run g address in
          (g', rw allocated (rw found ran), steps)
      | inr failed ↦ (g, rw failed (unfold run_scene in refl), Advances-refl ip g)
    ]

    reaches_scene :
        (scene : ℤ) (dsuid : Bytes) (d : VentaVdcd)
        → g.device ≡ some d
        → strcasecmp_eq d.dsuidstring dsuid ≡ true
        → vdc_callscene_cb env json dsuid scene g ≡ call_scene env json scene g
    unfolding vdc_callscene_cb
    reaches_scene scene dsuid d device ours = simp (device, ours)

    call_scene_total :
        (scene : ℤ)
        → FitsBuffer scene
        → (g' : Globals) × (call_scene env json scene g ≡ some (tt, g')) × Advances ip g g'
    unfolding call_scene
    call_scene_total scene fits =
        let tested = is_scene_configured-has_scene g.humifier loaded free table scene fits in
        elim (Bool-cases (has_scene scene loaded)) [
          | inr unknown ↦ (g, simp (tested, unknown), Advances-refl ip g)
          | inl known ↦
              let (g', ran, steps) = load_and_run_total scene fits (tested ∙ ap some known) in
              (g', simp (tested, known) ran, steps)
        ]

    -- A call meets no undefined behaviour, and the requests that it makes.
    pub vdc_callscene_cb_total :
        (scene : ℤ) (dsuid : Bytes) (d : VentaVdcd)
        → FitsBuffer scene
        → g.device ≡ some d
        → (g' : Globals) × (vdc_callscene_cb env json dsuid scene g ≡ some (tt, g'))
          × Advances ip g g'
    vdc_callscene_cb_total scene dsuid d fits device =
        elim (Bool-cases (strcasecmp_eq d.dsuidstring dsuid)) [
          | inr foreign ↦ (g, unfold vdc_callscene_cb in simp (device, foreign), Advances-refl ip g)
          | inl ours ↦
              let (g', ran, steps) = call_scene_total scene fits in
              (g', reaches_scene scene dsuid d device ours ∙ ran, steps)
        ]
