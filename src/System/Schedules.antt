-- ===== src/System/Schedules.antt =====
-- Any sequence of events.
use dss_vdc_venta.System.Polls.{network_round-Goes}
use dss_vdc_venta.System.Setting.{vdc_setprop_cb-Goes}
use dss_vdc_venta.System.Turns.{IsMaking, main_round-Goes}
use dss_vdc_venta.Prelude.{◌≡◌, List, some, All, ◌∷◌, [], refl, ◌+◌, ℕ, ◌≤◌, length, Bool, ◌++◌}
use dss_vdc_venta.Main.NetworkThread.{Poller}
use dss_vdc_venta.Network.Commands.Safety.{IsAnswering}
use dss_vdc_venta.Network.Json.{JsonC}
use dss_vdc_venta.Scenes.Configured.{FitsBuffer}
use dss_vdc_venta.Network.Http.{Env}
use dss_vdc_venta.System.Callbacks.{
  AreShort, IsAskable, vdc_callscene_cb-Goes, vdc_getprop_cb-Goes, vdc_ping_cb-returns,
  vdc_request_generic_cb-returns, vdc_savescene_cb-same,
}
use dss_vdc_venta.System.{
  Event, scene_called, properties_set, properties_read, step, run, run_effects, pinged,
  generic_requested, scene_saved, main_turn, network_turn, signalled,
}
use dss_vdc_venta.Main.Signals.{signal_handler, Signal, sigint, sigterm, other_signal}
use dss_vdc_venta.System.Running.{Facts, Goes, IsUp, Sends-trans, Goes-refl, Sends-none, IsUp-same}
use dss_vdc_venta.Types.{Globals}
use dss_vdc_venta.CString.{Bytes}
use dss_vdc_venta.Config.Libconfig.{Libconfig}
use dss_vdc_venta.Config.Write.{FileOp, build_config}
use dss_vdc_venta.Config.Write.Files.{done_ops, write_config-returns}
use dss_vdc_venta.Vdc.SetProp.{Effect, config_written, set_response, get_response, property_free}

-- What an event relies on: a called scene has a number from -9 to 99; the library makes properties;
-- and a query has a first name that is no wildcard.
abbrev pub IsAcceptable : ℕ → Event → Type 0
IsAcceptable slots (scene_called dsuid scene) = FitsBuffer scene
IsAcceptable slots (properties_set written dsuid ps) = Unit
IsAcceptable slots (properties_read q dsuid) = IsAskable q
IsAcceptable slots (pinged dsuid) = Unit
IsAcceptable slots (generic_requested allocated dsuid ps) = Unit
IsAcceptable slots (scene_saved dsuid) = Unit
IsAcceptable slots (main_turn r) = IsMaking slots r
IsAcceptable slots (network_turn now later) = Unit
IsAcceptable slots (signalled s) = Unit

-- A configuration can be made from any globals: no call of libconfig fails.
abbrev pub CanWrite : Libconfig → Type 0
CanWrite lib = (g : Globals) → (c : lib.Config) × (build_config lib g ≡ some c)

module _ (lib : Libconfig) (cfgfile : Bytes) (writable : CanWrite lib)
    (short_cfgfile : length cfgfile ≤ 4087) where
  run_effects-returns :
      (written : Bool) (effects : List Effect) (g : Globals)
      → (ops : List (FileOp lib)) × (run_effects lib cfgfile written effects g ≡ some ops)
  unfolding run_effects
  run_effects-returns written [] g = ([], refl)
  run_effects-returns written (config_written ∷ effects) g =
      let (c, built) = writable g in
      let wrote = write_config-returns lib written cfgfile g c built short_cfgfile in
      let (ops, ran) = run_effects-returns written effects g in
      (done_ops lib written cfgfile c ++ ops, rw (wrote, ran) refl)
  run_effects-returns written (set_response code ∷ effects) g =
      run_effects-returns written effects g
  run_effects-returns written (get_response ∷ effects) g = run_effects-returns written effects g
  run_effects-returns written (property_free ∷ effects) g = run_effects-returns written effects g

module _ (lib : Libconfig) (cfgfile : Bytes) (writable : CanWrite lib)
    (short_cfgfile : length cfgfile ≤ 4087) (f : Facts) (short : AreShort f) (env : Env)
    (json : JsonC) (answers : IsAnswering env json) where
  raised : (g : Globals) → IsUp f g → IsUp f (record g { shutdown_flag = g.shutdown_flag + 1 })
  raised g u = IsUp-same f g _ refl refl u.ours u

  signal_handler-Goes : (s : Signal) (g : Globals) → IsUp f g → Goes f g (signal_handler s g)
  unfolding signal_handler
  signal_handler-Goes sigint g u = record { up = raised g u; sends = Sends-none f.ip g _ refl }
  signal_handler-Goes sigterm g u = record { up = raised g u; sends = Sends-none f.ip g _ refl }
  signal_handler-Goes other_signal g u = Goes-refl f g u

  abbrev StepGoes : Event → Poller → Type 0
  StepGoes e p =
      (p' : Poller) × (step lib cfgfile env json e p ≡ some p') × Goes f p.globals p'.globals

  step-Goes : (e : Event) (p : Poller) → IsAcceptable f.slots e → IsUp f p.globals → StepGoes e p
  unfolding step
  step-Goes (scene_called dsuid scene) p ok u =
      let (g, ran, goes) =
        vdc_callscene_cb-Goes f short env json dsuid scene p.globals answers ok u in
      (record p { globals = g }, rw ran refl, goes)
  step-Goes (properties_set written dsuid ps) p ok u =
      let (g, effects, ran, goes) = vdc_setprop_cb-Goes f dsuid ps p.globals u in
      let (ops, wrote) = run_effects-returns lib cfgfile writable short_cfgfile written effects g in
      (record p { globals = g }, rw (ran, wrote) refl, goes)
  step-Goes (properties_read q dsuid) p ok u =
      let (g, effects, ran, goes) = vdc_getprop_cb-Goes f short q dsuid p.globals ok u in
      (record p { globals = g }, rw ran refl, goes)
  step-Goes (pinged dsuid) p ok u =
      let (pongs, ran) = vdc_ping_cb-returns f short dsuid p.globals u in
      (p, rw ran refl, Goes-refl f p.globals u)
  step-Goes (generic_requested allocated dsuid ps) p ok u =
      let (blocks, ran) = vdc_request_generic_cb-returns f short allocated dsuid ps p.globals u in
      (p, rw ran refl, Goes-refl f p.globals u)
  step-Goes (scene_saved dsuid) p ok u =
      let ran = vdc_savescene_cb-same f short dsuid p.globals u in
      (p, rw ran refl, Goes-refl f p.globals u)
  step-Goes (main_turn r) p ok u =
      let (g, calls, ran, goes) = main_round-Goes f r p.globals ok u in
      (record p { globals = g }, rw ran refl, goes)
  step-Goes (network_turn now later) p ok u =
      let (p', pongs, ran, goes) =
        network_round-Goes f env json short.short_ip answers now later p u in
      (p', rw ran refl, goes)
  step-Goes (signalled s) p ok u =
      (record p { globals = signal_handler s p.globals }, refl, signal_handler-Goes s p.globals u)

  Goes-trans : (g g' g'' : Globals) → Goes f g g' → Goes f g' g'' → Goes f g g''
  Goes-trans g g' g'' a b = record { up = b.up; sends = Sends-trans f.ip g g' g'' a.sends b.sends }

  -- Where every configuration can be built, and while the process is up, any sequence of acceptable
  -- events runs to its end without undefined behaviour, the messages of vdc_report and their
  -- arguments left out: callbacks, rounds of the main loop and of the network thread, and signals, in
  -- any order. The process is still up then, and libcurl was given nothing but requests for values
  -- and presses of the buttons 3 to 6, with the URLs of the humifier's address.
  pub any_schedule_returns :
      (events : List Event) (p : Poller)
      → All (IsAcceptable f.slots) events
      → IsUp f p.globals
      → (p' : Poller) × (run lib cfgfile env json events p ≡ some p') × Goes f p.globals p'.globals
  unfolding run
  any_schedule_returns [] p ok u = (p, refl, Goes-refl f p.globals u)
  any_schedule_returns (e ∷ events) p ok u =
      let (p', first, goes) = step-Goes e p ok.0 u in
      let (p'', later, goes') = any_schedule_returns events p' ok.1 goes.up in
      (p'', rw first later, Goes-trans p.globals p'.globals p''.globals goes goes')
