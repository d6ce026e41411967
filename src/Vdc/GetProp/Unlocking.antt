-- ===== src/Vdc/GetProp/Unlocking.antt =====
-- The mutex under a request for properties.
use dss_vdc_venta.Network.Parse.{unlock}
use dss_vdc_venta.Prelude.{
  ◌≡◌, refl, Bool, true, false, Option, none, some, List, Option-cases, Bool-cases, inl, inr, ◌+◌,
  sym, ◌∙◌,
}
use dss_vdc_venta.CString.{Bytes, strcasecmp_eq}
use dss_vdc_venta.Types.{Globals, main_thread, VentaVdcd}
use dss_vdc_venta.Network.Parse.Unlocking.{IsOurs, unlock-IsOurs}
use dss_vdc_venta.Vdc.Zone.{held, try_lock_ours}
use dss_vdc_venta.Vdc.GetProp.Reply.{Query, Answer}
use dss_vdc_venta.Vdc.GetProp.Connector.{connector_answers}
use dss_vdc_venta.Vdc.GetProp.Device.{device_answers}
use dss_vdc_venta.Vdc.GetProp.Callback.{GetEffect, answered, responded, vdc_getprop_cb}

responded-IsOurs :
    (g g' : Globals) (o : Option Answer) (effects : List GetEffect)
    → IsOurs g.network_mutex
    → responded g o ≡ some (g', effects)
    → IsOurs g'.network_mutex
responded-IsOurs g g' none effects o e = absurd (cc e)
responded-IsOurs g g' (some answer) effects o e = let same : g ≡ g' = cc e in rw (← same) o

answered-IsOurs :
    (g g' : Globals) (o : Option (Bool × Answer)) (effects : List GetEffect)
    → IsOurs g.network_mutex
    → answered g o ≡ some (g', effects)
    → IsOurs g'.network_mutex
answered-IsOurs g g' none effects o e = absurd (cc e)
answered-IsOurs g g' (some (over, answer)) effects o e =
    let same : unlock main_thread g.network_mutex ≡ g'.network_mutex = cc e in
    rw (← same) (unlock-IsOurs main_thread g.network_mutex o)

called :
    (q : Query) (dsuid : Bytes) (g : Globals) (d : VentaVdcd)
    → strcasecmp_eq g.vdc_dsuid dsuid ≡ false
    → g.device ≡ some d
    → strcasecmp_eq d.dsuidstring dsuid ≡ true
    → IsOurs g.network_mutex
    → vdc_getprop_cb q dsuid g
      ≡ answered
          (record g { network_mutex = held (g.network_mutex.depth + 1) })
          (device_answers q g.humifier q.names 0)
unfolding vdc_getprop_cb
called q dsuid g d other device ours o = simp (other, device, ours, try_lock_ours g.network_mutex o)

-- Where a request for properties returns, the mutex is free, or the main thread's, if it was so
-- before.
pub vdc_getprop_cb-IsOurs :
    (q : Query) (dsuid : Bytes) (g g' : Globals) (effects : List GetEffect)
    → IsOurs g.network_mutex
    → vdc_getprop_cb q dsuid g ≡ some (g', effects)
    → IsOurs g'.network_mutex
unfolding vdc_getprop_cb
vdc_getprop_cb-IsOurs q dsuid g g' effects o e =
    elim (Bool-cases (strcasecmp_eq g.vdc_dsuid dsuid)) [
      | inl vdc ↦ responded-IsOurs g g' (connector_answers q g q.names 0) effects o (simp vdc at e)
      | inr other ↦ elim (Option-cases g.device) [
        | inl no_device ↦ let e' = simp (other, no_device) at e in absurd (cc e')
        | inr (d, device) ↦ elim (Bool-cases (strcasecmp_eq d.dsuidstring dsuid)) [
          | inr foreign ↦
              let e' = simp (other, device, foreign) at e in
              let same : g ≡ g' = cc e' in rw (← same) o
          | inl ours ↦
              let m = held (g.network_mutex.depth + 1) in
              answered-IsOurs (record g { network_mutex = m }) g'
                (device_answers q g.humifier q.names 0) effects (inr refl)
                (sym (called q dsuid g d other device ours o) ∙ e)
        ]
      ]
    ]
