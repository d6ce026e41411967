-- ===== src/System/Polls.antt =====
-- A round of the network thread leaves the process up.
use dss_vdc_venta.Network.Commands.Unlocking.{venta_get_data-KeepsOurs}
use dss_vdc_venta.Main.Polling.{poll_end, succeeded, network_round_polls}
use dss_vdc_venta.Main.NetworkThread.{network_round, Poller, Pongs}
use dss_vdc_venta.Network.Commands.Safety.{IsAnswering, venta_get_data-IsSafe}
use dss_vdc_venta.Network.Json.{JsonC}
use dss_vdc_venta.Network.Http.{Env}
use dss_vdc_venta.Prelude.{
  ◌≡◌, Bool-cases, ◌≤◌, some, inr, refl, length, [], inl, ◌∷◌, ℤ, leb_ℤ, ◌+ℤ◌, pos, if◌then◌else◌,
}
use dss_vdc_venta.System.Running.{Facts, IsUp, Goes, Goes-refl, Advances-Goes, IsUp-same}
use dss_vdc_venta.Types.{Globals, network_thread}

module _ (f : Facts) (env : Env) (json : JsonC) (short : length f.ip ≤ 83)
    (answers : IsAnswering env json) where
  polled-IsUp :
      (rc now later : ℤ) (g : Globals) → IsUp f g → IsUp f (poll_end rc now later g).globals
  polled-IsUp rc now later g u = IsUp-same f g _ refl refl u.ours u

  pub network_round-Goes :
      (now later : ℤ) (p : Poller)
      → IsUp f p.globals
      → (p' : Poller) × (pongs : Pongs) × (network_round env json now later p ≡ some (p', pongs))
        × Goes f p.globals p'.globals
  unfolding network_round
  network_round-Goes now later p u = elim (Bool-cases (leb_ℤ (p.last +ℤ pos 10) now)) [
    | inr early ↦ (p, [], rw early refl, Goes-refl f p.globals u)
    | inl due ↦ elim (Bool-cases (leb_ℤ p.globals.query_values_time now)) [
      | inr early ↦ (record p { last = now }, [], rw (due, early) refl, Goes-refl f p.globals u)
      | inl over ↦
          let (rc, g, got, advances) =
            (venta_get_data-IsSafe env f.ip short json answers network_thread).run p.globals
              u.humifier.address in
          let ours =
            (venta_get_data-KeepsOurs env json network_thread).kept rc p.globals g u.ours got in
          let goes = Advances-Goes f p.globals g advances ours u in
          (
            poll_end rc now later g,
            if succeeded rc then [] else goes.up.device.dsuidstring ∷ [],
            network_round_polls env json now later p rc g goes.up.device due over got goes.up.there,
            record {
              up = polled-IsUp rc now later g goes.up;
              sends = record {
                sent = goes.sends.sent;
                posts = goes.sends.posts;
                requests = goes.sends.requests;
              };
            },
          )
    ]
  ]
