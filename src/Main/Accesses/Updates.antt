-- ===== src/Main/Accesses/Updates.antt =====
-- What is pushed keeps up with what the network thread stores, in every order of the accesses.
use dss_vdc_venta.Prelude.{
  List, ℤ, ◌≡◌, ◌⊎◌, inl, inr, pos, if◌then◌else◌, subst, ap, sym, ◌∙◌, leb_ℤ, ◌+ℤ◌, arith, some,
  true, false, refl, Bool,
}
use dss_vdc_venta.Main.Accesses.{
  Fine, Access, access, by_main, by_network, by_signal, MainAt, NetworkAt, at_clear, at_push,
  at_result, at_check, asleep, at_ask, over, at_top, at_test, at_unlock, at_free, at_close, at_join,
  at_end, ask_step, result_step, top_step, round_head, locked_head, presence_head, network_access,
  main_access, after_pushed, join_step, main_step, network_step,
}
use dss_vdc_venta.Main.Push.{PushResult, push_sensor_data, pushed, out_of_bounds, running}
use dss_vdc_venta.Main.Loop.{released, Round}
use dss_vdc_venta.Types.{SensorValue, VentaHumifier, VentaVdcd}
use dss_vdc_venta.Main.Signals.{Signal, sigint, sigterm, other_signal, signal_handler}
use dss_vdc_venta.Network.Http.{Env}
use dss_vdc_venta.Network.Json.{JsonC}
use dss_vdc_venta.Main.Loop.{announce, try_lock}
use dss_vdc_venta.Main.NetworkThread.{after_poll}

abbrev pub pushed_values : PushResult → List SensorValue → List SensorValue
pushed_values (pushed values rs) seen = values
pushed_values _ seen = seen

abbrev seen_by_main : Round → MainAt → Fine → List SensorValue → List SensorValue
seen_by_main r (at_push d) x seen =
    pushed_values (push_sensor_data r.fuel r.new_ok r.now x.globals.humifier.sensor_values) seen
seen_by_main r _ x seen = seen

-- The slots as the server was last told of them.
abbrev pub seen_after : Access → Fine → List SensorValue → List SensorValue
seen_after (by_main r) x seen = seen_by_main r x.main x seen
seen_after _ x seen = seen

-- The thread does not go on from a poll that failed or saw no change.
abbrev pub SawChange : NetworkAt → Type 0
SawChange (at_result now rc) = rc ≡ pos 0
SawChange _ = Unit

abbrev pub GoesOnChange : Access → Fine → Type 0
GoesOnChange (by_network now later) x = SawChange x.network
GoesOnChange _ x = Unit

abbrev pub IsPushing : MainAt → Type 0
IsPushing (at_clear d) = Unit
IsPushing (at_push d) = Unit
IsPushing _ = ⊥

abbrev pub HasAnswer : NetworkAt → Type 0
HasAnswer (at_result now rc) = Unit
HasAnswer _ = ⊥

-- The server knows the readings, or the way to it is open: the flag is set, a push is under way, or
-- the network thread has an answer to signal.
abbrev pub IsInStep : Fine → List SensorValue → Type 0
IsInStep x seen =
    ((x.globals.humifier.sensor_values ≡ seen) ⊎ (x.globals.network_changes ≡ true))
    ⊎ (IsPushing x.main ⊎ HasAnswer x.network)

reached-IsInStep :
    (x x' : Fine) (seen : List SensorValue) → some x ≡ some x' → IsInStep x seen → IsInStep x' seen
reached-IsInStep x x' seen e s = let same : x ≡ x' = cc e in subst (λ y. IsInStep y seen) same s

-- Where the network thread had no answer to signal, it may be anywhere.
moved-IsInStep :
    (at at' : NetworkAt) (l : ℤ) (x : Fine) (seen : List SensorValue)
    → (HasAnswer at → ⊥)
    → IsInStep (record x { network = at }) seen
    → IsInStep (record x { network = at'; last = l }) seen
moved-IsInStep at at' l x seen quiet (inl known) = inl known
moved-IsInStep at at' l x seen quiet (inr (inl pushing)) = inr (inl pushing)
moved-IsInStep at at' l x seen quiet (inr (inr answer)) = absurd (quiet answer)

if-IsInStep :
    (b : Bool) (x y : Fine) (seen : List SensorValue)
    → IsInStep x seen
    → IsInStep y seen
    → IsInStep (if b then x else y) seen
if-IsInStep true x y seen s t = s
if-IsInStep false x y seen s t = t

-- Where the main thread was not pushing, it may be anywhere, with the same readings and flag.
same-IsInStep :
    (at : MainAt) (x x' : Fine) (seen : List SensorValue)
    → (IsPushing at → ⊥)
    → x'.globals.humifier ≡ x.globals.humifier
    → x'.globals.network_changes ≡ x.globals.network_changes
    → x'.network ≡ x.network
    → IsInStep (record x { main = at }) seen
    → IsInStep x' seen
same-IsInStep at x x' seen idle h f n (inl (inl known)) =
    inl (inl (ap (λ (v : VentaHumifier). v.sensor_values) h ∙ known))
same-IsInStep at x x' seen idle h f n (inl (inr flag)) = inl (inr (f ∙ flag))
same-IsInStep at x x' seen idle h f n (inr (inl pushing)) = absurd (idle pushing)
same-IsInStep at x x' seen idle h f n (inr (inr answer)) =
    inr (inr (subst HasAnswer (sym n) answer))

tested-IsInStep :
    (d : VentaVdcd) (b : Bool) (x : Fine) (seen : List SensorValue)
    → x.globals.network_changes ≡ b
    → IsInStep (record x { main = at_test d }) seen
    → IsInStep (record x { main = if b then at_clear d else at_unlock }) seen
tested-IsInStep d true x seen set s = inl (inr set)
tested-IsInStep d false x seen set s =
    same-IsInStep (at_test d) x (record x { main = at_unlock }) seen (λ b. b) refl refl refl s

pushing-IsInStep :
    (d : VentaVdcd) (o : PushResult) (x x' : Fine) (seen : List SensorValue)
    → after_pushed d x o ≡ some x'
    → IsInStep x' (pushed_values o seen)
pushing-IsInStep d (pushed values rs) x x' seen e = reached-IsInStep _ x' values e (inl (inl refl))
pushing-IsInStep d out_of_bounds x x' seen e = absurd (cc e)
pushing-IsInStep d running x x' seen e = absurd (cc e)

stays-IsInStep :
    (at : MainAt) (x : Fine) (seen : List SensorValue)
    → (IsPushing at → ⊥)
    → IsInStep (record x { main = at }) seen
    → IsInStep x seen
stays-IsInStep at x seen idle s = same-IsInStep at x x seen idle refl refl refl s

joined-IsInStep :
    (n : NetworkAt) (x : Fine) (seen : List SensorValue)
    → IsInStep (record x { main = at_join }) seen
    → IsInStep (join_step n x) seen
joined-IsInStep over x seen s =
    same-IsInStep at_join x (record x { main = at_end }) seen (λ b. b) refl refl refl s
joined-IsInStep at_check x seen s = stays-IsInStep at_join x seen (λ b. b) s
joined-IsInStep asleep x seen s = stays-IsInStep at_join x seen (λ b. b) s
joined-IsInStep (at_ask now) x seen s = stays-IsInStep at_join x seen (λ b. b) s
joined-IsInStep (at_result now rc) x seen s = stays-IsInStep at_join x seen (λ b. b) s

signal-IsInStep :
    (c : Signal) (x : Fine) (seen : List SensorValue)
    → IsInStep x seen
    → IsInStep (record x { globals = signal_handler c x.globals }) seen
unfolding signal_handler
signal-IsInStep sigint x seen s = s
signal-IsInStep sigterm x seen s = s
signal-IsInStep other_signal x seen s = s

module _ (env : Env) (json : JsonC) where
  -- Accesses in some order, with what the server was told before and after them.
  pub data Runs : Fine → List SensorValue → Fine → List SensorValue → Type 0 where
    at_rest : {x : Fine} {seen : List SensorValue} → Runs x seen x seen
    then_access :
        {x x' x'' : Fine} {seen seen' : List SensorValue} (a : Access)
        → Runs x seen x' seen'
        → GoesOnChange a x'
        → access env json a x' ≡ some x''
        → Runs x seen x'' (seen_after a x' seen')

  network-IsInStep :
      (now later : ℤ) (at : NetworkAt) (x x' : Fine) (seen : List SensorValue)
      → SawChange at
      → network_access env json now later at x ≡ some x'
      → IsInStep (record x { network = at }) seen
      → IsInStep x' seen
  unfolding ask_step result_step after_poll
  network-IsInStep now later at_check x x' seen saw e s =
      reached-IsInStep _ x' seen e (moved-IsInStep at_check _ x.last x seen (λ b. b) s)
  network-IsInStep now later asleep x x' seen saw e s = reached-IsInStep _ x' seen e (
      if-IsInStep (leb_ℤ (x.last +ℤ pos 10) now) _ (record x { network = at_check }) seen
        (if-IsInStep (leb_ℤ x.globals.query_values_time now) (record x { network = at_ask now })
          (record x { last = now; network = at_check }) seen
          (moved-IsInStep asleep (at_ask now) x.last x seen (λ b. b) s)
          (moved-IsInStep asleep at_check now x seen (λ b. b) s))
        (moved-IsInStep asleep at_check x.last x seen (λ b. b) s))
  network-IsInStep now later (at_ask now') x x' seen saw e s = ground arith
  network-IsInStep now later (at_result now' rc) x x' seen saw e s = ground arith
  network-IsInStep now later over x x' seen saw e s =
      reached-IsInStep x x' seen e (moved-IsInStep over x.network x.last x seen (λ b. b) s)

  head-IsInStep :
      (r : Round) (x x' : Fine) (seen : List SensorValue)
      → top_step r x ≡ some x'
      → IsInStep (record x { main = at_top }) seen
      → IsInStep x' seen
  unfolding top_step round_head locked_head announce presence_head try_lock
  head-IsInStep r x x' seen e s = ground arith

  main-IsInStep :
      (r : Round) (at : MainAt) (x x' : Fine) (seen : List SensorValue)
      → main_access r at x ≡ some x'
      → IsInStep (record x { main = at }) seen
      → IsInStep x' (seen_by_main r at x seen)
  main-IsInStep r at_top x x' seen e s = head-IsInStep r x x' seen e s
  main-IsInStep r (at_test d) x x' seen e s =
      reached-IsInStep _ x' seen e (tested-IsInStep d x.globals.network_changes x seen refl s)
  main-IsInStep r (at_clear d) x x' seen e s = reached-IsInStep _ x' seen e (inr (inl tt))
  main-IsInStep r (at_push d) x x' seen e s = pushing-IsInStep d _ x x' seen e
  main-IsInStep r at_unlock x x' seen e s = reached-IsInStep _ x' seen e (
      same-IsInStep at_unlock x (record x { globals = released x.globals; main = at_top }) seen
        (λ b. b) refl refl refl s)
  main-IsInStep r at_free x x' seen e s = reached-IsInStep _ x' seen e (
      same-IsInStep at_free x (record x { values_there = false; main = at_close }) seen (λ b. b)
        refl refl refl s)
  main-IsInStep r at_close x x' seen e s = reached-IsInStep _ x' seen e (
      same-IsInStep at_close x (record x { library_there = false; main = at_join }) seen (λ b. b)
        refl refl refl s)
  main-IsInStep r at_join x x' seen e s =
      reached-IsInStep _ x' seen e (joined-IsInStep x.network x seen s)
  main-IsInStep r at_end x x' seen e s =
      reached-IsInStep x x' seen e (stays-IsInStep at_end x seen (λ b. b) s)

  access-IsInStep :
      (a : Access) (x x' : Fine) (seen : List SensorValue)
      → GoesOnChange a x
      → access env json a x ≡ some x'
      → IsInStep x seen
      → IsInStep x' (seen_after a x seen)
  unfolding main_step network_step
  access-IsInStep (by_main r) x x' seen saw e s = main-IsInStep r x.main x x' seen e s
  access-IsInStep (by_network now later) x x' seen saw e s =
      network-IsInStep now later x.network x x' seen saw e s
  access-IsInStep (by_signal c) x x' seen saw e s =
      reached-IsInStep _ x' seen e (signal-IsInStep c x seen s)

  -- In every order of the accesses of the two loops and of signals, the callbacks left out, in which
  -- the network thread goes on only from polls with the result 0: if before them the server knew the
  -- sensor slots, or the flag for new values was set, or a push was under way, or a result was not
  -- yet looked at, then so it is behind them, with what the server was told last in place of what it
  -- knew.
  pub no_reading_is_lost :
      {x x' : Fine} {seen seen' : List SensorValue}
      → Runs x seen x' seen'
      → IsInStep x seen
      → IsInStep x' seen'
  no_reading_is_lost at_rest s = s
  no_reading_is_lost (then_access a before saw e) s =
      access-IsInStep a _ _ _ saw e (no_reading_is_lost before s)
