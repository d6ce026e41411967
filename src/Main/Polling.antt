-- ===== src/Main/Polling.antt =====
-- When the network thread polls, and what becomes of the signal for new values.
use dss_vdc_venta.Prelude.{
  ℤ, if◌then◌else◌, ltb_ℤ, leb_ℤ, ◌≡◌, ◌==ℤ◌, ◌+ℤ◌, true, pos, ◌||◌, ◌⊎◌, some, [], ◌∷◌, false,
  Bool-cases, inr, inl, arith, Bool, refl, ◌∙◌,
}
use dss_vdc_venta.Network.Http.{Env}
use dss_vdc_venta.Network.Json.{JsonC}
use dss_vdc_venta.Network.Commands.{venta_get_data}
use dss_vdc_venta.Main.NetworkThread.{Poller, after_poll, network_round}
use dss_vdc_venta.Types.{VentaVdcd, Globals, network_thread}

abbrev pub succeeded : ℤ → Bool
succeeded rc = rc ==ℤ pos 0 || rc ==ℤ pos 1

-- The thread after a poll with a result: the next poll is due after the reload time, or 60 seconds
-- after a failure; new values are signalled exactly for the result 0.
abbrev pub poll_end : ℤ → ℤ → ℤ → Globals → Poller
poll_end rc now later g = record {
  globals = record g {
    query_values_time = if succeeded rc then g.reload_values +ℤ now else pos 60 +ℤ later;
    network_changes = rc ==ℤ pos 0;
  };
  last = if succeeded rc then now else later;
}

after_poll_end :
    (rc now later : ℤ) (g : Globals) (d : VentaVdcd)
    → g.device ≡ some d
    → after_poll now later rc g
      ≡ some (poll_end rc now later g, if succeeded rc then [] else d.dsuidstring ∷ [])
unfolding after_poll
after_poll_end rc now later g d e = ground arith

module _ (env : Env) (json : JsonC) (now later : ℤ) (p : Poller) where
  -- A round within ten seconds of the last one, or before the time of the next poll, sends nothing
  -- and leaves the globals alone.
  pub network_round_idle :
      (ltb_ℤ now (p.last +ℤ pos 10) ≡ true) ⊎ (ltb_ℤ now p.globals.query_values_time ≡ true)
      → (p' : Poller) × (network_round env json now later p ≡ some (p', []))
        × (p'.globals ≡ p.globals)
  unfolding network_round
  network_round_idle h = elim (Bool-cases (leb_ℤ (p.last +ℤ pos 10) now)) [
    | inr soon ↦ (p, ground arith, refl)
    | inl due ↦ (record p { last = now }, ground arith, refl)
  ]

  pub polls :
      (rc : ℤ) (g : Globals)
      → leb_ℤ (p.last +ℤ pos 10) now ≡ true
      → leb_ℤ p.globals.query_values_time now ≡ true
      → venta_get_data env json network_thread p.globals ≡ some (rc, g)
      → network_round env json now later p ≡ after_poll now later rc g
  unfolding network_round
  polls rc g due over got = simp (due, over, got)

  -- A round that is due, with a device, asks for the values. It then sets the time of the next poll
  -- (the reload time on after success, 60 seconds after a failure), signals new values exactly for
  -- the result 0, and sends one pong for the device exactly after a failure.
  pub network_round_polls :
      (rc : ℤ) (g : Globals) (d : VentaVdcd)
      → leb_ℤ (p.last +ℤ pos 10) now ≡ true
      → leb_ℤ p.globals.query_values_time now ≡ true
      → venta_get_data env json network_thread p.globals ≡ some (rc, g)
      → g.device ≡ some d
      → network_round env json now later p
        ≡ some (poll_end rc now later g, if succeeded rc then [] else d.dsuidstring ∷ [])
  network_round_polls rc g d due over got device =
      polls rc g due over got ∙ after_poll_end rc now later g d device

  -- A signal for new values that was not yet pushed is lost where a poll that is due reports no
  -- change.
  pub network_round_loses_signal :
      (g : Globals)
      → p.globals.network_changes ≡ true
      → leb_ℤ (p.last +ℤ pos 10) now ≡ true
      → leb_ℤ p.globals.query_values_time now ≡ true
      → venta_get_data env json network_thread p.globals ≡ some (pos 1, g)
      → (p' : Poller) × (network_round env json now later p ≡ some (p', []))
        × (p'.globals.network_changes ≡ false)
  unfolding after_poll
  network_round_loses_signal g signalled due over got =
      (poll_end (pos 1) now later g, polls (pos 1) g due over got ∙ refl, refl)
