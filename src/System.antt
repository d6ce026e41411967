-- ===== src/System.antt =====
-- The process behind its start: what libdsvdc, the network and the signals make the two threads do,
-- one event after another.
pub mod Running
pub mod Callbacks
pub mod Setting
pub mod Turns
pub mod Polls
pub mod Schedules
pub mod FromStart
pub mod Unreported
use dss_vdc_venta.Types.{Globals}
use dss_vdc_venta.Config.Libconfig.{Libconfig}
use dss_vdc_venta.Config.Write.{FileOp, write_config}
use dss_vdc_venta.Main.Loop.{Round, main_round}
use dss_vdc_venta.Vdc.Requests.{vdc_request_generic_cb, GenericProperty, vdc_savescene_cb}
use dss_vdc_venta.Vdc.Ping.{vdc_ping_cb}
use dss_vdc_venta.Vdc.GetProp.Callback.{vdc_getprop_cb}
use dss_vdc_venta.Vdc.GetProp.Reply.{Query}
use dss_vdc_venta.Main.NetworkThread.{Poller, network_round}
use dss_vdc_venta.Vdc.SetProp.{Property, Effect, config_written, vdc_setprop_cb}
use dss_vdc_venta.Vdc.CallScene.{vdc_callscene_cb}
use dss_vdc_venta.Network.Json.{JsonC}
use dss_vdc_venta.Network.Http.{Env}
use dss_vdc_venta.CString.{Bytes}
use dss_vdc_venta.Prelude.{◌++◌, ℤ, List, Option, ℕ, some, Bool, ◌∷◌, ◌>>=◌, []}
use dss_vdc_venta.Main.Signals.{Signal, signal_handler}

-- A callback that libdsvdc runs for the main thread, the rest of a round of the main loop, a round
-- of the network thread, or a signal. A request to set properties says whether a configuration that
-- it has written is written well.
pub data Event : Type 0 where
  scene_called : Bytes → ℤ → Event
  properties_set : Bool → Bytes → List Property → Event
  properties_read : Query → Bytes → Event
  pinged : Bytes → Event
  generic_requested : (ℕ → Bool) → Bytes → List GenericProperty → Event
  scene_saved : Bytes → Event
  main_turn : Round → Event
  network_turn : ℤ → ℤ → Event
  signalled : Signal → Event

module _ (lib : Libconfig) (cfgfile : Bytes) where
  -- The configuration is written where the callback has it written.
  unfoldable pub run_effects : Bool → List Effect → Globals → Option (List (FileOp lib))
  unfolding write_config
  run_effects written [] g = some []
  run_effects written (config_written ∷ effects) g = do
    (rc, ops) ← write_config lib written cfgfile g
    rest ← run_effects written effects g
    some (ops ++ rest)
  run_effects written (effect ∷ effects) g = run_effects written effects g

module _ (lib : Libconfig) (cfgfile : Bytes) (env : Env) (json : JsonC) where
  -- `none` is undefined behaviour, or a loop that does not end.
  unfoldable pub step : Event → Poller → Option Poller
  unfolding vdc_callscene_cb vdc_setprop_cb vdc_getprop_cb vdc_ping_cb vdc_request_generic_cb
      vdc_savescene_cb main_round network_round signal_handler run_effects
  step (scene_called dsuid scene) p = do
    (_, g) ← vdc_callscene_cb env json dsuid scene p.globals
    some (record p { globals = g })
  step (properties_set written dsuid ps) p = do
    (g, effects) ← vdc_setprop_cb dsuid ps p.globals
    ops ← run_effects lib cfgfile written effects g
    some (record p { globals = g })
  step (properties_read q dsuid) p = do
    (g, effects) ← vdc_getprop_cb q dsuid p.globals
    some (record p { globals = g })
  step (pinged dsuid) p = do pongs ← vdc_ping_cb dsuid p.globals; some p
  step (generic_requested allocated dsuid ps) p = do
    blocks ← vdc_request_generic_cb allocated dsuid ps p.globals
    some p
  step (scene_saved dsuid) p = do
    g ← vdc_savescene_cb dsuid p.globals
    some (record p { globals = g })
  step (main_turn r) p = do (g, calls) ← main_round r p.globals; some (record p { globals = g })
  step (network_turn now later) p = do (p', pongs) ← network_round env json now later p; some p'
  step (signalled s) p = some (record p { globals = signal_handler s p.globals })

  unfoldable pub run : List Event → Poller → Option Poller
  unfolding step
  run [] p = some p
  run (e ∷ es) p = do p' ← step e p; run es p'
