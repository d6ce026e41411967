-- ===== src/Main/Accesses.antt =====
-- The two loops of venta/main.c access by access, and the clean-up behind the main loop: either
-- thread can go on between two accesses of the other to the flag, the values and the library.
pub mod Alone
pub mod Network
pub mod Updates
pub mod Exit
use dss_vdc_venta.Main.Signals.{Signal, signal_handler}
use dss_vdc_venta.Network.Commands.{venta_get_data}
use dss_vdc_venta.Main.NetworkThread.{Pongs, after_poll}
use dss_vdc_venta.CString.{Bytes, strcmp_eq, codes}
use dss_vdc_venta.Network.Json.{JsonC}
use dss_vdc_venta.Network.Parse.{unlock, c_string}
use dss_vdc_venta.Network.Http.{Env, Memory, MemoryStruct, text, response_of}
use dss_vdc_venta.Main.Push.{PushResult, pushed, push_sensor_data}
use dss_vdc_venta.Main.Loop.{
  Round, announce, try_lock, Call, with_device, released, push_property, vanished, identify,
}
use dss_vdc_venta.Prelude.{
  List, ℤ, ◌++◌, if◌then◌else◌, Option, Bool, not, ◌==◌, some, ◌>>=◌, [], false, ◌∷◌, none, true,
  ◌&&◌, ◌||◌, leb_ℤ, ◌>>◌, ◌+ℤ◌, guard, pos,
}
use dss_vdc_venta.Types.{Globals, VentaVdcd, Mutex, main_thread, network_thread}

-- The round up to the test of the flag: it is over, or goes on to that test for the device.
pub data Head : Type 0 where
  finished : Globals → List Call → Head
  reports : VentaVdcd → Globals → Head

unfoldable pub presence_head : Round → VentaVdcd → Globals → Head
presence_head r d g =
    if not d.present
    then if d.present_signaled
      then finished (with_device g (record d { present_signaled = false }))
          (vanished d.dsuidstring ∷ [])
      else reports d g
    else if not d.present_signaled
    then finished (with_device g (record d { present_signaled = true }))
        (identify d.dsuidstring ∷ [])
    else reports d g

abbrev pub announced_head : Globals × List Call → Head
announced_head (g, calls) = finished g calls

unfoldable pub locked_head : Round → VentaVdcd → Globals → Head
unfolding announce presence_head unlock
locked_head r d g =
    if not r.has_session
    then finished (released (with_device g (record d { announced = false }))) []
    else if not d.announced
    then announced_head (announce r d g)
    else presence_head r d g

abbrev pub head_of : Round → Option Mutex → Option VentaVdcd → Globals → Option Head
head_of r none device g = some (finished g [])
head_of r (some m) none g = none
head_of r (some m) (some d) g = some (locked_head r d (record g { network_mutex = m }))

unfoldable pub round_head : Round → Globals → Option Head
unfolding locked_head try_lock
round_head r g = head_of r (try_lock main_thread g.network_mutex) g.device g

-- Where the main thread is: in its loop, or in the clean-up behind it.
pub data MainAt : Type 0 where
  at_top : MainAt
  at_test at_clear at_push : VentaVdcd → MainAt
  at_unlock : MainAt
  at_free at_close at_join at_end : MainAt

-- Where the network thread is: before the test of its loop, asleep, about to ask, with an answer, or
-- at its end.
pub data NetworkAt : Type 0 where
  at_check asleep : NetworkAt
  at_ask : ℤ → NetworkAt
  at_result : ℤ → ℤ → NetworkAt
  over : NetworkAt

-- Both threads, `last` of the network thread, what is still there of the sensor names and current
-- values and of the library, and the calls of the library so far by either thread.
pub record Fine : Type 0 where
  pub globals : Globals
  pub last : ℤ
  pub main : MainAt
  pub network : NetworkAt
  pub values_there : Bool
  pub library_there : Bool
  pub calls : List Call
  pub pongs : Pongs

abbrev pub after_head : Fine → Head → Fine
after_head x (finished g calls) = record x { globals = g; main = at_top; calls = x.calls ++ calls }
after_head x (reports d g) = record x { globals = g; main = at_test d }

abbrev pub after_pushed : VentaVdcd → Fine → PushResult → Option Fine
after_pushed d x (pushed values rs) = some (record x {
  globals = record x.globals { humifier = record x.globals.humifier { sensor_values = values } };
  main = at_unlock;
  calls = x.calls ++ push_property d.dsuidstring rs ∷ [];
})
after_pushed d x _ = none

-- The loop's test, and then the round up to its next access.
unfoldable pub top_step : Round → Fine → Option Fine
unfolding round_head
top_step r x =
    if x.globals.shutdown_flag == 0
    then (do h ← round_head r x.globals; some (after_head x h))
    else some (record x { main = at_free })

-- The end of the network thread is waited for before the mutex is destroyed.
abbrev pub join_step : NetworkAt → Fine → Fine
join_step over x = record x { main = at_end }
join_step _ x = x

abbrev pub main_access : Round → MainAt → Fine → Option Fine
main_access r at_top x = top_step r x
main_access r (at_test d) x =
    some (record x { main = if x.globals.network_changes then at_clear d else at_unlock })
main_access r (at_clear d) x =
    some (record x { globals = record x.globals { network_changes = false }; main = at_push d })
main_access r (at_push d) x =
    after_pushed d x (push_sensor_data r.fuel r.new_ok r.now x.globals.humifier.sensor_values)
main_access r at_unlock x = some (record x { globals = released x.globals; main = at_top })
main_access r at_free x = some (record x { values_there = false; main = at_close })
main_access r at_close x = some (record x { library_there = false; main = at_join })
main_access r at_join x = some (join_step x.network x)
main_access r at_end x = some x

unfoldable pub main_step : Round → Fine → Option Fine
unfolding top_step
main_step r x = main_access r x.main x

module _ (json : JsonC) where
  open json use {Json, tokener_parse, members}

  -- Does an object have an entry under "device"? Each such entry reads the current values and the
  -- names of the sensors.
  abbrev pub has_entry : Option (List (Bytes × Json)) → Bool
  has_entry (some (e ∷ es)) = true
  has_entry _ = false

  unfoldable pub touches_values : List (Bytes × Json) → Bool
  unfolding strcmp_eq
  touches_values [] = false
  touches_values ((key, value) ∷ ms) =
      (strcmp_eq key (codes "device") && has_entry (members value)) || touches_values ms

  abbrev touches_object : Option Json → Bool
  touches_object none = false
  touches_object (some object) = elim (members object) [
    | none ↦ false
    | some ms ↦ touches_values ms
  ]

  abbrev touches_memory : Memory → Bool
  touches_memory (text bytes) = touches_object (tokener_parse (c_string bytes))
  touches_memory _ = false

  abbrev pub touches : Option MemoryStruct → Bool
  touches none = false
  touches (some response) = touches_memory response.memory

abbrev pub is_empty : Pongs → Bool
is_empty [] = true
is_empty (pong ∷ pongs) = false

module _ (env : Env) (json : JsonC) where
  -- The poll. `none` where the answer makes it read a value that is freed.
  unfoldable pub ask_step : ℤ → Fine → Option Fine
  unfolding venta_get_data touches_values
  ask_step now x = do
    (rc, g) ← venta_get_data env json network_thread x.globals
    guard (x.values_there || not (touches json (response_of (env.attempt g.posts))))
    some (record x { globals = g; network = at_result now rc })

  -- What the result leads to. `none` where it calls the library that is closed.
  unfoldable pub result_step : ℤ → ℤ → ℤ → Fine → Option Fine
  unfolding after_poll
  result_step now rc later x = do
    (p, pongs) ← after_poll now later rc x.globals
    guard (x.library_there || is_empty pongs)
    some (record x {
      globals = p.globals;
      last = p.last;
      network = at_check;
      pongs = x.pongs ++ pongs;
    })

  -- The times are those that the thread reads after its sleep, and after a failed poll.
  abbrev pub network_access : ℤ → ℤ → NetworkAt → Fine → Option Fine
  network_access now later at_check x =
      some (record x { network = if x.globals.shutdown_flag == 0 then asleep else over })
  network_access now later asleep x = some (
      if leb_ℤ (x.last +ℤ pos 10) now
      then if leb_ℤ x.globals.query_values_time now
        then record x { network = at_ask now }
        else record x { last = now; network = at_check }
      else record x { network = at_check })
  network_access now later (at_ask now') x = ask_step now' x
  network_access now later (at_result now' rc) x = result_step now' rc later x
  network_access now later over x = some x

  unfoldable pub network_step : ℤ → ℤ → Fine → Option Fine
  unfolding ask_step result_step
  network_step now later x = network_access now later x.network x

-- One of the threads does its next access, or a signal comes.
pub data Access : Type 0 where
  by_main : Round → Access
  by_network : ℤ → ℤ → Access
  by_signal : Signal → Access

module _ (env : Env) (json : JsonC) where
  abbrev pub access : Access → Fine → Option Fine
  access (by_main r) x = main_step r x
  access (by_network now later) x = network_step env json now later x
  access (by_signal s) x = some (record x { globals = signal_handler s x.globals })

  unfoldable pub accesses : List Access → Fine → Option Fine
  unfolding main_step network_step signal_handler
  accesses [] x = some x
  accesses (a ∷ rest) x = do x' ← access a x; accesses rest x'
