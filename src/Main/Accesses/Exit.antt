-- ===== src/Main/Accesses/Exit.antt =====
-- The clean-up behind the main loop while the network thread has not seen the flag.
use dss_vdc_venta.Prelude.{
  List, ℕ, ℤ, ◌≡◌, ◌∷◌, [], some, none, pos, leb_ℤ, ◌+ℤ◌, true, false, refl, ap, ◌+◌, ◌==◌, Option,
  Bool, arith, if◌then◌else◌, ◌>>=◌,
}
use dss_vdc_venta.Main.Accesses.{
  Fine, Access, access, by_main, by_network, by_signal, accesses, at_top, asleep, at_free, at_close,
  at_ask, touches, ask_step, round_head, after_head, network_step, main_step, top_step,
}
use dss_vdc_venta.Main.Accesses.Network.{wake}
use dss_vdc_venta.Main.Signals.{sigterm, signal_handler}
use dss_vdc_venta.Main.Loop.{Round}
use dss_vdc_venta.Network.Commands.{venta_get_data}
use dss_vdc_venta.Network.Http.{Env, response_of}
use dss_vdc_venta.Network.Json.{JsonC}
use dss_vdc_venta.Types.{Globals, network_thread}

-- A flag that is raised ends the loop of the main thread.
leaves_loop :
    (r : Round) (x : Fine)
    → main_step r (record x { globals = signal_handler sigterm x.globals; main = at_top })
      ≡ some (record x { globals = signal_handler sigterm x.globals; main = at_free })
unfolding main_step top_step signal_handler
leaves_loop r x =
    let y = record x { globals = signal_handler sigterm x.globals } in
    ap
      (λ (b : Bool).
        if b
        then (round_head r y.globals >>= λ h. some (after_head y h))
        else some (record y { main = at_free }))
      (nonzero x.globals.shutdown_flag)
  where
    nonzero : (n : ℕ) → (n + 1 == 0) ≡ false
    nonzero n = ground arith

module _ (env : Env) (json : JsonC) where
  freed_poll :
      (now : ℤ) (rc : ℤ) (x : Fine) (g : Globals)
      → x.values_there ≡ false
      → venta_get_data env json network_thread x.globals ≡ some (rc, g)
      → touches json (response_of (env.attempt g.posts)) ≡ true
      → ask_step env json now x ≡ none
  unfolding ask_step
  freed_poll now rc x g freed got reads = rw (got, freed, reads) refl

  goes_on_to :
      (a : Access) (rest : List Access) (x x' : Fine) (o : Option Fine)
      → access env json a x ≡ some x'
      → accesses env json rest x' ≡ o
      → accesses env json (a ∷ rest) x ≡ o
  unfolding accesses
  goes_on_to a rest x x' o first later = rw first later

  faults_at_once :
      (a : Access) (rest : List Access) (x : Fine)
      → access env json a x ≡ none
      → accesses env json (a ∷ rest) x ≡ none
  unfolding accesses
  faults_at_once a rest x fault = rw fault refl

  -- Where SIGTERM comes while the main thread is at its test and the network thread sleeps, and a
  -- poll is due whose answer has an entry under "device", there is an order of the accesses that
  -- follow in which the poll uses the readings and names after they are freed.
  pub late_poll_faults :
      (r r' : Round) (now later now' later' rc : ℤ) (x : Fine) (g : Globals)
      → leb_ℤ (x.last +ℤ pos 10) now ≡ true
      → leb_ℤ x.globals.query_values_time now ≡ true
      → venta_get_data env json network_thread (signal_handler sigterm x.globals) ≡ some (rc, g)
      → touches json (response_of (env.attempt g.posts)) ≡ true
      → accesses env json
          (by_signal sigterm
            ∷ by_main r
            ∷ by_main r'
            ∷ by_network now later
            ∷ by_network now' later'
            ∷ [])
          (record x { main = at_top; network = asleep })
        ≡ none
  unfolding main_step top_step network_step signal_handler
  late_poll_faults r r' now later now' later' rc x g due time got reads =
      let y = record x { globals = signal_handler sigterm x.globals; network = asleep } in
      let z = record y { values_there = false; main = at_close } in
      goes_on_to (by_signal sigterm) _ (record x { main = at_top; network = asleep })
        (record y { main = at_top }) none refl
        (goes_on_to (by_main r) _ (record y { main = at_top }) (record y { main = at_free }) none
          (leaves_loop r (record x { network = asleep }))
          (goes_on_to (by_main r') _ (record y { main = at_free }) z none refl
            (goes_on_to (by_network now later) _ z (record z { network = at_ask now }) none
              (wake env json now later z true true due time)
              (faults_at_once (by_network now' later') [] (record z { network = at_ask now })
                (freed_poll now rc z g refl got reads)))))
