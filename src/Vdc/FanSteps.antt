-- ===== src/Vdc/FanSteps.antt =====
-- The fan buttons that a scene presses.
use dss_vdc_venta.Prelude.{
  ℤ, List, length, if◌then◌else◌, ◌∷◌, ◌≤◌, [], ◌==ℤ◌, ◌≡◌, ltb_ℤ, Option, pos, some, refl, ◌∙◌,
  Bool-cases, true, inl, negsuc, inr,
}
use dss_vdc_venta.Network.Action.{Action, ◌>>=◌, ◌>>◌, pure}
use dss_vdc_venta.Network.Http.{Env}
use dss_vdc_venta.Network.Json.{JsonC}
use dss_vdc_venta.Network.Commands.{venta_get_data, venta_set_fan, venta_set_mode_sleep}
use dss_vdc_venta.Network.Commands.Buttons.{after_request, venta_set_fan_presses}
use dss_vdc_venta.Network.Safe.{button_request}
use dss_vdc_venta.Types.{Scene, Globals, main_thread}
use dss_vdc_venta.CString.{Bytes}
use dss_vdc_venta.Vdc.CallScene.{
  apply_sleep, apply_automatic, press_twice, step_to_two, apply_fan, run_scene,
}

-- One step up from level 1, one down from level 3.
abbrev pub step_buttons : ℤ → List ℤ
step_buttons level =
    if level ==ℤ pos 1 then pos 3 ∷ [] else if level ==ℤ pos 3 then pos 4 ∷ [] else []

-- The presses of a scene for a fan level, by the level that was read.
abbrev pub fan_buttons : ℤ → ℤ → List ℤ
fan_buttons fan level =
    if fan ==ℤ pos 1
    then pos 4 ∷ pos 4 ∷ []
    else if fan ==ℤ pos 2
    then step_buttons level
    else if fan ==ℤ pos 3
    then pos 3 ∷ pos 3 ∷ []
    else []

abbrev pub after_buttons : Bytes → List ℤ → Globals → Globals
after_buttons ip [] g = g
after_buttons ip (btn ∷ btns) g = after_buttons ip btns (after_request (button_request ip btn) g)

module _ (env : Env) (json : JsonC) (ip : Bytes) (short : length ip ≤ 83) where
  one_press :
      {A : Type 0} (btn : ℤ) (k : Action A) (g : Globals)
      → g.humifier.ip ≡ some ip
      → (venta_set_fan env btn >> k) g ≡ k (after_request (button_request ip btn) g)
  one_press btn k g e = rw (venta_set_fan_presses env ip short btn g e, ◌>>=◌) refl

  press_twice-presses :
      (btn : ℤ) (g : Globals)
      → g.humifier.ip ≡ some ip
      → press_twice env json btn g ≡ some (tt, after_buttons ip (btn ∷ btn ∷ []) g)
  press_twice-presses btn g e =
      one_press btn (venta_set_fan env btn >> pure tt) g e
      ∙ one_press btn (pure tt) (after_request (button_request ip btn) g) e

  step_to_two-presses :
      (level : ℤ) (g : Globals)
      → g.humifier.ip ≡ some ip
      → step_to_two env json level g ≡ some (tt, after_buttons ip (step_buttons level) g)
  unfolding step_to_two
  step_to_two-presses level g e = elim (Bool-cases (level ==ℤ pos 1)) [
    | inl one ↦ simp one (one_press (pos 3) (pure tt) g e)
    | inr more ↦ elim (Bool-cases (level ==ℤ pos 3)) [
      | inl three ↦ simp (more, three) (one_press (pos 4) (pure tt) g e)
      | inr other ↦ simp (more, other) refl
    ]
  ]

  -- The fan part of a scene presses exactly the buttons for its level and the level that was read
  -- last, and changes nothing else.
  pub apply_fan_presses :
      (fan : ℤ) (g : Globals)
      → g.humifier.ip ≡ some ip
      → apply_fan env json fan g
        ≡ some (tt, after_buttons ip (fan_buttons fan g.current_values.fan) g)
  unfolding apply_fan
  apply_fan_presses fan g e = elim (Bool-cases (fan ==ℤ pos 1)) [
    | inl one ↦ simp one (press_twice-presses (pos 4) g e)
    | inr a ↦ elim (Bool-cases (fan ==ℤ pos 2)) [
      | inl two ↦ simp (a, two) (step_to_two-presses g.current_values.fan g e)
      | inr b ↦ elim (Bool-cases (fan ==ℤ pos 3)) [
        | inl three ↦ simp (a, b, three) (press_twice-presses (pos 3) g e)
        | inr c ↦ simp (a, b, c) refl
      ]
    ]
  ]

  apply_sleep_on :
      (mode : ℤ) (g g' : Globals) (r : Option ℤ)
      → ltb_ℤ (pos 0) mode ≡ true
      → venta_set_mode_sleep env json main_thread true g ≡ some (r, g')
      → g'.humifier.ip ≡ some ip
      → apply_sleep env json mode g ≡ some (tt, after_buttons ip (pos 4 ∷ pos 4 ∷ []) g')
  unfolding apply_sleep
  apply_sleep_on mode g g' r on set e = simp on (rw (set, ◌>>=◌) (press_twice-presses (pos 4) g' e))

  apply_automatic_unset :
      (mode : ℤ) (g : Globals) → mode ≡ negsuc 0 → apply_automatic env json mode g ≡ some (tt, g)
  unfolding apply_automatic
  apply_automatic_unset mode g e = rw e refl

  -- A scene that turns the sleep mode on and leaves the automatic mode alone: after the sleep mode
  -- is set, the button 4 is pressed twice, and the presses for the scene's fan level follow, which
  -- go by the level that was read before those two presses.
  pub run_scene_sleep_and_fan :
      (s : Scene) (g g' g'' : Globals) (rc : ℤ) (r : Option ℤ)
      → ltb_ℤ (pos 0) s.mode_sleep ≡ true
      → s.mode_automatic ≡ negsuc 0
      → venta_get_data env json main_thread g ≡ some (rc, g')
      → venta_set_mode_sleep env json main_thread true g' ≡ some (r, g'')
      → g''.humifier.ip ≡ some ip
      → run_scene env json (some s) g
        ≡ some (tt, after_buttons ip (pos 4 ∷ pos 4 ∷ fan_buttons s.fan g''.current_values.fan) g'')
  unfolding run_scene
  run_scene_sleep_and_fan s g g' g'' rc r on no_automatic got set e =
      let pressed = after_buttons ip (pos 4 ∷ pos 4 ∷ []) g'' in
      rw (got, ◌>>=◌)
        (rw (apply_sleep_on s.mode_sleep g' g'' r on set e, ◌>>=◌)
          (rw (apply_automatic_unset s.mode_automatic pressed no_automatic, ◌>>=◌)
            (apply_fan_presses s.fan pressed e)))
