-- ===== src/Main/Accesses/Network.antt =====
-- The network thread alone does what its round does.
use dss_vdc_venta.Network.Commands.{venta_get_data}
use dss_vdc_venta.Main.NetworkThread.{network_round, Poller, Pongs, polled, after_poll}
use dss_vdc_venta.Main.Accesses.{
  Fine, network_step, Option, Bool, some, Pongs, leb_ℤ, at_check, at_ask, asleep, pos, ask_step,
  result_step, true, at_result, guard, is_empty, touches,
}
use dss_vdc_venta.Prelude.{
  ℕ, ℤ, Option, ◌≡◌, Bool, some, ◌>>◌, Option-cases, inl, inr, false, append-nil, sym, arith,
  if◌then◌else◌, leb_ℤ, suc, ◌≤◌, ◌+ℤ◌, ◌>>=◌, ◌++◌, pos, zero, ap, refl, [], ◌∙◌, true, guard,
  ◌||◌, not,
}
use dss_vdc_venta.Network.Json.{JsonC}
use dss_vdc_venta.Network.Http.{Env, response_of}
use dss_vdc_venta.Types.{Globals, network_thread}

module _ (env : Env) (json : JsonC) where
  -- So many accesses of the network thread, in one round.
  unfoldable pub network_steps : ℕ → ℤ → ℤ → Fine → Option Fine
  network_steps zero now later x = some x
  network_steps (suc n) now later x = do
    x' ← network_step env json now later x
    network_steps n now later x'

  next_step :
      (n : ℕ) (now later : ℤ) (x x' : Fine) (o : Option Fine)
      → network_step env json now later x ≡ some x'
      → network_steps n now later x' ≡ o
      → network_steps (suc n) now later x ≡ o
  unfolding network_steps
  next_step n now later x x' o first later' = rw first later'

  last_step :
      (now later : ℤ) (x x' : Fine)
      → network_step env json now later x ≡ some x'
      → network_steps 1 now later x ≡ some x'
  unfolding network_steps
  last_step now later x x' first = rw first refl

  abbrev pub polled_over : Fine → Poller × Pongs → Fine
  polled_over x (p, pongs) = record x {
    globals = p.globals;
    last = p.last;
    network = at_check;
    pongs = x.pongs ++ pongs;
  }

  abbrev poller_of : Fine → Poller
  poller_of x = record { globals = x.globals; last = x.last }

  abbrev pub EndsPoll : ℤ → ℤ → Fine → Poller × Pongs → Type 0
  EndsPoll now later x result =
      (n : ℕ) × (n ≤ 3)
      × (network_steps n now later (record x { network = asleep }) ≡ some (polled_over x result))

  -- The step from sleep, by its two tests.
  abbrev woken : ℤ → Fine → Bool → Bool → Fine
  woken now x due time =
      if due
      then if time
        then record x { network = at_ask now }
        else record x { last = now; network = at_check }
      else record x { network = at_check }

  abbrev rounds : ℤ → ℤ → Fine → Bool → Bool → Option (Poller × Pongs)
  rounds now later x due time =
      if due
      then if time
        then polled now later (venta_get_data env json network_thread x.globals)
        else some (record (poller_of x) { last = now }, [])
      else some (poller_of x, [])

  pub wake :
      (now later : ℤ) (x : Fine) (due time : Bool)
      → leb_ℤ (x.last +ℤ pos 10) now ≡ due
      → leb_ℤ x.globals.query_values_time now ≡ time
      → network_step env json now later (record x { network = asleep })
        ≡ some (woken now x due time)
  unfolding network_step
  wake now later x due time a b =
      ap (λ (d : Bool). some (woken now x d (leb_ℤ x.globals.query_values_time now))) a
      ∙ ap (λ (t : Bool). some (woken now x due t)) b

  round_by_tests :
      (now later : ℤ) (x : Fine) (due time : Bool)
      → leb_ℤ (x.last +ℤ pos 10) now ≡ due
      → leb_ℤ x.globals.query_values_time now ≡ time
      → network_round env json now later (poller_of x) ≡ rounds now later x due time
  unfolding network_round
  round_by_tests now later x due time a b =
      ap (λ (d : Bool). rounds now later x d (leb_ℤ x.globals.query_values_time now)) a
      ∙ ap (λ (t : Bool). rounds now later x due t) b

  asks :
      (now later rc : ℤ) (x : Fine) (g : Globals)
      → x.values_there ≡ true
      → venta_get_data env json network_thread x.globals ≡ some (rc, g)
      → network_step env json now later (record x { network = at_ask now })
        ≡ some (record x { globals = g; network = at_result now rc })
  unfolding network_step ask_step
  asks now later rc x g there got =
      ap
        (λ (o : Option (ℤ × Globals)). o >>= λ (rg : ℤ × Globals).
          guard (x.values_there || not (touches json (response_of (env.attempt rg.1.posts))))
          >> some (record x { globals = rg.1; network = at_result now rg.0 }))
        got
      ∙ ap
          (λ (b : Bool).
            guard (b || not (touches json (response_of (env.attempt g.posts))))
            >> some (record x { globals = g; network = at_result now rc }))
          there

  ends :
      (now later rc : ℤ) (x : Fine) (p : Poller) (pongs : Pongs)
      → x.library_there ≡ true
      → after_poll now later rc x.globals ≡ some (p, pongs)
      → network_step env json now later (record x { network = at_result now rc })
        ≡ some (polled_over x (p, pongs))
  unfolding network_step result_step
  ends now later rc x p pongs there e =
      ap
        (λ (o : Option (Poller × Pongs)). o >>= λ (pp : Poller × Pongs).
          guard (x.library_there || is_empty pp.1) >> some (polled_over x pp))
        e
      ∙ ap (λ (b : Bool). guard (b || is_empty pongs) >> some (polled_over x (p, pongs))) there

  quiet-EndsPoll :
      (now later l : ℤ) (x : Fine) (result : Poller × Pongs)
      → network_step env json now later (record x { network = asleep })
        ≡ some (record x { last = l; network = at_check })
      → some (record (poller_of x) { last = l }, []) ≡ some result
      → EndsPoll now later x result
  quiet-EndsPoll now later l x result first e =
      let same : (record (poller_of x) { last = l }, []) ≡ result = cc e in
      (
        1,
        omega arith,
        last_step now later (record x { network = asleep }) _ first
            ∙ ap
                (λ (pongs : Pongs). some (record x { last = l; network = at_check; pongs = pongs }))
                (sym (append-nil x.pongs))
            ∙ ap (λ (res : Poller × Pongs). some (polled_over x res)) same,
      )

  polling-EndsPoll :
      (now later : ℤ) (x : Fine) (result : Poller × Pongs)
      → x.values_there ≡ true
      → x.library_there ≡ true
      → network_step env json now later (record x { network = asleep })
        ≡ some (record x { network = at_ask now })
      → polled now later (venta_get_data env json network_thread x.globals) ≡ some result
      → EndsPoll now later x result
  polling-EndsPoll now later x (p, pongs) values library first e =
      elim (Option-cases (venta_get_data env json network_thread x.globals)) [
        | inl fault ↦ absurd (cc (sym (ap (polled now later) fault) ∙ e))
        | inr ((rc, g), got) ↦
            let y = record x { globals = g } in
            (
              3,
              omega arith,
              next_step 2 now later (record x { network = asleep })
                  (record x { network = at_ask now }) _ first
                  (next_step 1 now later (record x { network = at_ask now })
                    (record y { network = at_result now rc }) _ (asks now later rc x g values got)
                    (last_step now later (record y { network = at_result now rc }) _
                      (ends now later rc y p pongs library (sym (ap (polled now later) got) ∙ e)))),
            )
      ]

  -- With the values and the library there, a round of the network thread that returns is at most
  -- three of its accesses: alone they lead to the same globals, time and pongs.
  pub network_round-accesses :
      (now later : ℤ) (x : Fine) (result : Poller × Pongs)
      → x.values_there ≡ true
      → x.library_there ≡ true
      → network_round env json now later (record { globals = x.globals; last = x.last })
        ≡ some result
      → EndsPoll now later x result
  network_round-accesses now later x result values library ran =
      by_tests (leb_ℤ (x.last +ℤ pos 10) now) (leb_ℤ x.globals.query_values_time now) refl refl
    where
      by_tests :
          (due time : Bool)
          → leb_ℤ (x.last +ℤ pos 10) now ≡ due
          → leb_ℤ x.globals.query_values_time now ≡ time
          → EndsPoll now later x result
      by_tests false time a b =
          quiet-EndsPoll now later x.last x result (wake now later x false time a b)
            (sym (round_by_tests now later x false time a b) ∙ ran)
      by_tests true false a b =
          quiet-EndsPoll now later now x result (wake now later x true false a b)
            (sym (round_by_tests now later x true false a b) ∙ ran)
      by_tests true true a b =
          polling-EndsPoll now later x result values library (wake now later x true true a b)
            (sym (round_by_tests now later x true true a b) ∙ ran)
