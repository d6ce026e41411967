-- ===== src/System/Unreported.antt =====
-- A scene call and the poll behind it.
use dss_vdc_venta.Prelude.{
  ℤ, ℕ, Option, ◌≡◌, ◌⊎◌, some, true, false, pos, leb_ℤ, ◌+ℤ◌, ap, ◌∙◌, sym, ◌∷◌, [], refl,
}
use dss_vdc_venta.Network.Http.{Env}
use dss_vdc_venta.Config.Libconfig.{Libconfig}
use dss_vdc_venta.Network.Json.{JsonC}
use dss_vdc_venta.Network.Parse.Changes.Settled.{Holds}
use dss_vdc_venta.Network.Commands.Safety.{IsAnswering}
use dss_vdc_venta.Network.Commands.Steady.{IsSteady, venta_get_data_quiet}
use dss_vdc_venta.Main.NetworkThread.{Poller, network_round, after_poll}
use dss_vdc_venta.Main.Polling.{polls}
use dss_vdc_venta.Scenes.{is_scene_configured, get_scene_configuration}
use dss_vdc_venta.Scenes.Configured.{FitsBuffer}
use dss_vdc_venta.Vdc.CallScene.{vdc_callscene_cb, call_scene, load_and_run, run_scene}
use dss_vdc_venta.Vdc.SceneSafety.{vdc_callscene_cb_total}
use dss_vdc_venta.Vdc.Steady.{SetsMode, run_scene-IsSteady}
use dss_vdc_venta.System.{run, scene_called, network_turn}
use dss_vdc_venta.System.Running.{Facts, IsUp}
use dss_vdc_venta.System.Callbacks.{AreShort}
use dss_vdc_venta.Types.{Globals, Scene, VentaVdcd, network_thread}
use dss_vdc_venta.CString.{Bytes, strcasecmp_eq}

module _ (env : Env) (json : JsonC) where
  -- A call for this device of a scene that is found.
  pub record Calls (dsuid : Bytes) (scene : ℤ) (s : Scene) (g : Globals) : Type 0 where
    pub device : VentaVdcd
    pub there : g.device ≡ some device
    pub ours : strcasecmp_eq device.dsuidstring dsuid ≡ true
    pub configured : is_scene_configured scene g.humifier ≡ some true
    pub found :
        get_scene_configuration (env.scene_allocated g.posts) scene g.humifier ≡ some (some s)

  Calls-run_scene :
      (dsuid : Bytes) (scene : ℤ) (s : Scene) (g : Globals)
      → Calls dsuid scene s g
      → vdc_callscene_cb env json dsuid scene g ≡ run_scene env json (some s) g
  unfolding vdc_callscene_cb call_scene load_and_run
  Calls-run_scene dsuid scene s g c = simp (c.there, c.ours, c.configured, c.found)

  -- A poll that is due, and whose readings the slots hold twice.
  quiet_poll :
      (reads : ℕ → Option ℤ) (ip : Bytes) (now later : ℤ) (p : Poller)
      → IsSteady env json reads ip 2 p.globals
      → leb_ℤ (p.last +ℤ pos 10) now ≡ true
      → leb_ℤ p.globals.query_values_time now ≡ true
      → (p' : Poller) × (network_round env json now later p ≡ some (p', []))
        × (p'.globals.network_changes ≡ false)
        × Holds 2 reads p'.globals.humifier
  unfolding after_poll
  quiet_poll reads ip now later p s due time =
      let (g, got, after) = venta_get_data_quiet env json reads ip network_thread p.globals s in
      (
        record {
          globals = record g {
            query_values_time = g.reload_values +ℤ now;
            network_changes = false;
          };
          last = now;
        },
        polls env json now later p (pos 1) g due time got ∙ refl,
        refl,
        after.held,
      )

  -- The process is up, with short texts, and its device is called with a scene that is found and that
  -- turns a mode on or off. Every answer of the humifier has the expected shape and the same readings,
  -- at most one for a slot, and the slots that have one were reported before. Then the call returns,
  -- and so does the next round of the network thread, which is due to poll: each such slot holds the
  -- reading, and no new value is signalled, whatever the slots held before, and also if a new value
  -- was signalled before.
  pub scene_change_unreported :
      (lib : Libconfig) (cfgfile : Bytes) (f : Facts) (reads : ℕ → Option ℤ) (dsuid : Bytes)
      (scene : ℤ) (s : Scene) (p : Poller) (now later : ℤ)
      → AreShort f
      → IsAnswering env json
      → IsUp f p.globals
      → FitsBuffer scene
      → Calls dsuid scene s p.globals
      → SetsMode s.mode_sleep ⊎ SetsMode s.mode_automatic
      → IsSteady env json reads f.ip 0 p.globals
      → leb_ℤ (p.last +ℤ pos 10) now ≡ true
      → leb_ℤ p.globals.query_values_time now ≡ true
      → (p' : Poller) × (run lib cfgfile env json
            (scene_called dsuid scene ∷ network_turn now later ∷ [])
            p
          ≡ some p')
        × (p'.globals.network_changes ≡ false)
        × Holds 2 reads p'.globals.humifier
  unfolding run
  scene_change_unreported lib cfgfile f reads dsuid scene s p now later short answers u fits c sets
        steady due time =
      let (g, called, advances) =
        vdc_callscene_cb_total env json f.ip short.short_ip answers p.globals u.humifier.address
          f.loaded f.free u.humifier.table scene dsuid u.device fits u.there in
      let settled : IsSteady env json reads f.ip 2 g =
        (run_scene-IsSteady env json reads f.ip s sets).kept tt p.globals g steady
          (sym (Calls-run_scene dsuid scene s p.globals c) ∙ called) in
      let same : g.query_values_time ≡ p.globals.query_values_time =
        ap (λ (x : Globals). x.query_values_time) advances.kept in
      let (p', polled, quiet, held) =
        quiet_poll reads f.ip now later (record p { globals = g }) settled due
          (ap (λ (t : ℤ). leb_ℤ t now) same ∙ time) in
      (p', rw called (rw polled refl), quiet, held)
