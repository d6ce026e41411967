-- ===== src/Vdc/GetProp/Safe.antt =====
-- The callback returns, gives one response or none, and changes nothing.
use dss_vdc_venta.Prelude.{
  ◌++◌, ℕ, ◌+◌, ◌≤◌, ◌≡◌, refl, Bool, true, false, some, List, [], ◌∷◌, length, arith, Bool-cases,
  inl, inr, leb, ap, suc, All,
}
use dss_vdc_venta.CString.{Bytes, codes, strcasecmp_eq, print_int}
use dss_vdc_venta.Types.{Globals, VentaVdcd, main_thread, Mutex}
use dss_vdc_venta.Network.Parse.{unlock}
use dss_vdc_venta.Network.Parse.Unlocking.{IsOurs, unlock-IsOurs}
use dss_vdc_venta.Vdc.SetProp.{PropertyName, name_error, wildcard, named}
use dss_vdc_venta.Vdc.Zone.{held, try_lock_ours, unlock-held}
use dss_vdc_venta.Vdc.GetProp.Reply.{Query, joined_in, Case}
use dss_vdc_venta.Vdc.GetProp.Connector.{
  id_text, service_name, connector_answer, connector_answers, connector_cases, capabilities,
}
use dss_vdc_venta.Vdc.GetProp.Returns.{
  Defined, IsTotal, IsReadable, joined_in-Defined, grouped-Defined, device_answers-Defined,
  run_case-Defined, add_text-Defined, ◌&◌, constant-Defined,
}
use dss_vdc_venta.Vdc.GetProp.Callback.{
  GetEffect, send_response, unlock_mutex, property_free, vdc_getprop_cb, get_effects,
}

-- How often the property is handed back to the library, by a response or by freeing it.
abbrev pub closings : List GetEffect → ℕ
closings [] = 0
closings (send_response _ ∷ effects) = suc (closings effects)
closings (property_free ∷ effects) = suc (closings effects)
closings (unlock_mutex ∷ effects) = closings effects

module _ (q : Query) (g : Globals) (r : IsReadable q g.humifier) where
  id_text-Defined : (start : Bytes) → length start ≤ 12 → Defined (id_text q start)
  unfolding id_text
  id_text-Defined start short =
      let number = r.short_number in
      let fits : leb (length (print_int q.id_as_int) + 1) 32 ≡ true = ground arith in
      rw (fits, joined_in-Defined 256 start (print_int q.id_as_int) (omega (arith, number, short)))
        (_, refl)

  short_name : (n : ℕ) → n ≤ 63 → leb (n + 1) 64 ≡ true
  short_name n short = ground arith

  service_name-Defined : Defined (service_name q)
  unfolding service_name
  service_name-Defined =
      let short = r.short_host in
      (
        codes "Venta Humifier Controller @" ++ q.hostname,
        rw (short_name (length q.hostname) short, service_name)
            (joined_in-Defined 96 (codes "Venta Humifier Controller @") q.hostname
              (omega (arith, short))),
      )

  name-Defined : Defined (joined_in 256 (codes "Venta Humifier ") g.humifier.name)
  name-Defined =
      let there = r.has_name in
      let short = r.short_name in
      rw (there, joined_in-Defined 256 (codes "Venta Humifier ") r.name (omega (arith, short)))
        (_, refl)

  cases-Defined : All (λ (c : Case). IsTotal c.1) (connector_cases q g)
  unfolding connector_cases
  cases-Defined =
      (λ name k. add_text-Defined name k _ (id_text-Defined (codes "humifier-id:") (omega arith)))
      & (λ name k. add_text-Defined name k _ (id_text-Defined [] (omega arith)))
      & constant-Defined _
      & constant-Defined _
      & constant-Defined _
      & (λ name k. add_text-Defined name k _ name-Defined)
      & (λ name k. add_text-Defined name k _ service_name-Defined)
      & (λ name k. grouped-Defined q name (λ j. some (capabilities, j)) k (λ j. (_, refl)))
      & constant-Defined _
      & tt

  connector_answer-Defined : IsTotal (connector_answer q g)
  unfolding connector_answer
  connector_answer-Defined = run_case-Defined (connector_cases q g) cases-Defined

  connector_answers-Defined :
      (names : List PropertyName) (k : ℕ) → Defined (connector_answers q g names k)
  unfolding connector_answers
  connector_answers-Defined [] k = (_, refl)
  connector_answers-Defined (name_error ∷ names) k = (_, refl)
  connector_answers-Defined (wildcard ∷ names) k = (_, refl)
  connector_answers-Defined (named name ∷ names) k =
      let ((entries, k'), here) = connector_answer-Defined name k in
      let (rest, there) = connector_answers-Defined names k' in
      rw (here, there, connector_answers) (_, refl)

  closings-get_effects : (over : Bool) (answer : _) → closings (get_effects over answer) ≡ 1
  closings-get_effects true answer = refl
  closings-get_effects false answer = refl

  pub vdc_getprop_cb_returns :
      (dsuid : Bytes) (d : VentaVdcd)
      → IsOurs g.network_mutex
      → g.device ≡ some d
      → (g' : Globals) × (effects : List GetEffect) × (vdc_getprop_cb q dsuid g
          ≡ some (g', effects))
        × (closings effects ≡ 1)
        × (g' ≡ record g { network_mutex = g'.network_mutex })
        × (g'.network_mutex.depth ≡ g.network_mutex.depth)
        × IsOurs g'.network_mutex
  vdc_getprop_cb_returns dsuid d o e = elim (Bool-cases (strcasecmp_eq g.vdc_dsuid dsuid)) [
    | inl vdc ↦
        let (answer, there) = connector_answers-Defined q.names 0 in
        (
          g,
          send_response answer ∷ [],
          unfold vdc_getprop_cb in simp (vdc, there),
          refl,
          refl,
          refl,
          o,
        )
    | inr other ↦ elim (Bool-cases (strcasecmp_eq d.dsuidstring dsuid)) [
      | inr foreign ↦ (
        g,
        property_free ∷ [],
        unfold vdc_getprop_cb in simp (other, e, foreign),
        refl,
        refl,
        refl,
        o,
      )
      | inl ours ↦
          let ((over, answer), there) = device_answers-Defined q g.humifier r q.names 0 in
          let m = held (g.network_mutex.depth + 1) in
          (
            record g { network_mutex = unlock main_thread m },
            get_effects over answer,
            unfold vdc_getprop_cb in simp (other, e, ours, try_lock_ours g.network_mutex o, there),
            closings-get_effects over answer,
            refl,
            ap (λ (n : Mutex). n.depth) (unlock-held g.network_mutex.depth),
            unlock-IsOurs main_thread m (inr refl),
          )
    ]
  ]
