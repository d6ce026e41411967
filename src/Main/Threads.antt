-- ===== src/Main/Threads.antt =====
-- The two threads: one step is a round of the main loop, a callback that runs before it, or a round
-- of the network thread, in any order.
use dss_vdc_venta.Vdc.Zone.{vdc_setprop_cb-depth, try_lock_ours, vdc_setprop_cb_zone}
use dss_vdc_venta.Prelude.{
  ℤ, List, ◌≡◌, some, none, inl, inr, arith, Option-cases, Bool-cases, leb_ℤ, pos, ◌+ℤ◌, ◌+◌, false,
}
use dss_vdc_venta.Network.Http.{Env}
use dss_vdc_venta.Network.Json.{JsonC}
use dss_vdc_venta.Network.Commands.{venta_get_data}
use dss_vdc_venta.Network.Commands.Unlocking.{venta_get_data-KeepsOurs}
use dss_vdc_venta.Network.Parse.Unlocking.{IsOurs}
use dss_vdc_venta.Main.Loop.{Round, Call, main_round, try_lock}
use dss_vdc_venta.Main.NetworkThread.{Poller, Pongs, after_poll, network_round}
use dss_vdc_venta.Vdc.CallScene.{vdc_callscene_cb}
use dss_vdc_venta.Vdc.Unlocking.{vdc_callscene_cb-KeepsOurs}
use dss_vdc_venta.Vdc.SetProp.{Property, Effect, vdc_setprop_cb}
use dss_vdc_venta.Types.{Globals, main_thread, network_thread}
use dss_vdc_venta.CString.{Bytes, strcasecmp_eq}
use dss_vdc_venta.Vdc.GetProp.Callback.{GetEffect, vdc_getprop_cb}
use dss_vdc_venta.Vdc.GetProp.Reply.{Query}
use dss_vdc_venta.Vdc.GetProp.Unlocking.{vdc_getprop_cb-IsOurs}

module _ (env : Env) (json : JsonC) where
  pub data Step : Poller → Poller → Type 0 where
    main_turn :
        {p : Poller} (r : Round) (g : Globals) (calls : List Call)
        → main_round r p.globals ≡ some (g, calls)
        → Step p (record p { globals = g })
    scene_called :
        {p : Poller} (dsuid : Bytes) (scene : ℤ) (g : Globals)
        → vdc_callscene_cb env json dsuid scene p.globals ≡ some (tt, g)
        → Step p (record p { globals = g })
    properties_set :
        {p : Poller} (dsuid : Bytes) (ps : List Property) (g : Globals) (effects : List Effect)
        → vdc_setprop_cb dsuid ps p.globals ≡ some (g, effects)
        → Step p (record p { globals = g })
    properties_read :
        {p : Poller} (q : Query) (dsuid : Bytes) (g : Globals) (effects : List GetEffect)
        → vdc_getprop_cb q dsuid p.globals ≡ some (g, effects)
        → Step p (record p { globals = g })
    network_turn :
        {p p' : Poller} (now later : ℤ) (pongs : Pongs)
        → network_round env json now later p ≡ some (p', pongs)
        → Step p p'

  pub data Reaches (p : Poller) : Poller → Type 0 where
    at_start : Reaches p p
    then_step : {p' p'' : Poller} → Reaches p p' → Step p' p'' → Reaches p p''

  main_round-IsOurs :
      (r : Round) (g g' : Globals) (calls : List Call)
      → IsOurs g.network_mutex
      → main_round r g ≡ some (g', calls)
      → IsOurs g'.network_mutex
  unfolding main_round
  main_round-IsOurs r g g' calls o e = ground arith

  after_poll-mutex :
      (now later rc : ℤ) (g : Globals) (p : Poller) (pongs : Pongs)
      → after_poll now later rc g ≡ some (p, pongs)
      → p.globals.network_mutex ≡ g.network_mutex
  unfolding after_poll
  after_poll-mutex now later rc g p pongs e = ground arith

  network_round-IsOurs :
      (now later : ℤ) (p p' : Poller) (pongs : Pongs)
      → IsOurs p.globals.network_mutex
      → network_round env json now later p ≡ some (p', pongs)
      → IsOurs p'.globals.network_mutex
  unfolding network_round
  network_round-IsOurs now later p p' pongs o e = elim (Bool-cases (leb_ℤ (p.last +ℤ pos 10) now)) [
    | inr early ↦ let same : p ≡ p' = cc (rw early at e) in rw (← same) o
    | inl due ↦ elim (Bool-cases (leb_ℤ p.globals.query_values_time now)) [
      | inr early ↦
          let same : record p { last = now } ≡ p' = cc (rw (due, early) at e) in rw (← same) o
      | inl poll ↦ elim (Option-cases (venta_get_data env json network_thread p.globals)) [
        | inl fault ↦ absurd (cc (rw (due, poll, fault) at e))
        | inr ((rc, g), got) ↦
            rw (after_poll-mutex now later rc g p' pongs (rw (due, poll, got) at e))
              ((venta_get_data-KeepsOurs env json network_thread).kept rc p.globals g o got)
      ]
    ]
  ]

  vdc_setprop_cb_no_device :
      (dsuid : Bytes) (ps : List Property) (g : Globals)
      → g.device ≡ none
      → strcasecmp_eq g.vdc_dsuid dsuid ≡ false
      → vdc_setprop_cb dsuid ps g ≡ none
  unfolding vdc_setprop_cb
  vdc_setprop_cb_no_device dsuid ps g no_device other = simp (other, no_device)

  vdc_setprop_cb-IsOurs :
      (dsuid : Bytes) (ps : List Property) (g g' : Globals) (effects : List Effect)
      → IsOurs g.network_mutex
      → vdc_setprop_cb dsuid ps g ≡ some (g', effects)
      → IsOurs g'.network_mutex
  vdc_setprop_cb-IsOurs dsuid ps g g' effects o e = elim (Option-cases g.device) [
    | inr (d, device) ↦
        let (g'', effects'', ran, _, ours) = vdc_setprop_cb-depth dsuid ps g d o device in
        let same : g'' ≡ g' = cc (ran, e) in rw (← same) ours
    | inl no_device ↦ elim (Bool-cases (strcasecmp_eq g.vdc_dsuid dsuid)) [
      | inl vdc ↦
          let (effects'', ran, _) = vdc_setprop_cb_zone dsuid ps g vdc in
          let same : g.network_mutex ≡ g'.network_mutex = cc (ran, e) in rw (← same) o
      | inr other ↦ absurd (cc (vdc_setprop_cb_no_device dsuid ps g no_device other, e))
    ]
  ]

  Step-IsOurs :
      (p p' : Poller) → Step p p' → IsOurs p.globals.network_mutex → IsOurs p'.globals.network_mutex
  Step-IsOurs p p' (main_turn r g calls e) o = main_round-IsOurs r p.globals g calls o e
  Step-IsOurs p p' (scene_called dsuid scene g e) o =
      (vdc_callscene_cb-KeepsOurs env json dsuid scene).kept tt p.globals g o e
  Step-IsOurs p p' (properties_set dsuid ps g effects e) o =
      vdc_setprop_cb-IsOurs dsuid ps p.globals g effects o e
  Step-IsOurs p p' (properties_read q dsuid g effects e) o =
      vdc_getprop_cb-IsOurs q dsuid p.globals g effects o e
  Step-IsOurs p p' (network_turn now later pongs e) o =
      network_round-IsOurs now later p p' pongs o e

  Reaches-IsOurs :
      (p p' : Poller)
      → Reaches p p'
      → IsOurs p.globals.network_mutex
      → IsOurs p'.globals.network_mutex
  Reaches-IsOurs p p' at_start o = o
  Reaches-IsOurs p p' (then_step {p' = q} before step) o =
      Step-IsOurs q p' step (Reaches-IsOurs p q before o)

  -- From a free mutex, after any steps of the two threads in any order, the network thread does not
  -- hold the mutex, and the main thread's attempt to take it succeeds: no round of the main loop
  -- gives way to the network thread.
  pub try_lock_never_busy :
      (p p' : Poller)
      → p.globals.network_mutex.depth ≡ 0
      → Reaches p p'
      → try_lock main_thread p'.globals.network_mutex
        ≡ some (record { owner = main_thread; depth = p'.globals.network_mutex.depth + 1 })
  try_lock_never_busy p p' free steps =
      try_lock_ours p'.globals.network_mutex (Reaches-IsOurs p p' steps (inl free))
