-- ===== src/Tests/Accesses.antt =====
-- The two threads access by access.
use dss_vdc_venta.Prelude.{some, ◌≡◌, ◌∷◌, [], pos, true, false, refl, none, inl, List}
use dss_vdc_venta.Tests.Fixtures.{hum_sensor, no_sensor, globals, env, json, humifier}
use dss_vdc_venta.Tests.Main.{
  good_round, ready_device, ready, after_ready, one_push, pushes, polled_globals,
}
use dss_vdc_venta.Main.Accesses.{
  Fine, by_main, by_network, by_signal, accesses, at_top, asleep, at_test, at_ask, at_result,
  at_push, at_unlock, at_check, main_step, network_step, touches_values,
}
use dss_vdc_venta.Main.Accesses.Alone.{EndsRound, main_round-accesses}
use dss_vdc_venta.Main.Accesses.Network.{EndsPoll, network_round-accesses}
use dss_vdc_venta.Main.Accesses.Updates.{IsInStep, Runs, at_rest, then_access, no_reading_is_lost}
use dss_vdc_venta.Main.Accesses.Exit.{late_poll_faults}
use dss_vdc_venta.Main.NetworkThread.{network_round}
use dss_vdc_venta.Main.Polling.{poll_end}
use dss_vdc_venta.CString.{codes}
use dss_vdc_venta.Main.Loop.{push_property}
use dss_vdc_venta.Main.Push.{push_sensor_data}
use dss_vdc_venta.Main.Signals.{sigterm, signal_handler}
use dss_vdc_venta.Network.Http.{response_of}
use dss_vdc_venta.Network.Commands.{venta_get_data}
use dss_vdc_venta.Types.{Globals, SensorValue, network_thread}

abbrev resting : Fine
resting = record {
  globals = ready;
  last = pos 90;
  main = at_top;
  network = asleep;
  values_there = true;
  library_there = true;
  calls = [];
  pongs = [];
}

main_round-accesses_at_input : EndsRound 5 good_round resting resting (after_ready, one_push)
main_round-accesses_at_input =
    main_round-accesses good_round resting (after_ready, one_push) refl pushes

polls_new :
    network_round env json (pos 100) (pos 101) (record { globals = globals; last = pos 90 })
    ≡ some (poll_end (pos 0) (pos 100) (pos 101) polled_globals, [])
unfolding network_round venta_get_data
polls_new = refl

network_round-accesses_at_input :
    EndsPoll env json
      (pos 100)
      (pos 101)
      (record resting { globals = globals })
      (poll_end (pos 0) (pos 100) (pos 101) polled_globals, [])
network_round-accesses_at_input =
    network_round-accesses env json (pos 100) (pos 101) (record resting { globals = globals })
      (poll_end (pos 0) (pos 100) (pos 101) polled_globals, []) refl refl polls_new

-- A poll whose answer is signalled and pushed, while the main thread is at its test.
abbrev at_poll : Fine
at_poll = record resting { main = at_test ready_device; network = at_ask (pos 100) }

abbrev polled_ready : Globals
polled_ready = record polled_globals { device = ready.device }

abbrev with_answer : Fine
with_answer = record at_poll { globals = polled_ready; network = at_result (pos 100) (pos 0) }

abbrev signalled_new : Fine
signalled_new = record with_answer {
  globals = record polled_ready { query_values_time = pos 160 };
  last = pos 100;
  network = at_check;
}

abbrev told_values : List SensorValue
told_values =
    record hum_sensor { value = pos 4; last_query = pos 100; last_reported = pos 100 }
    ∷ no_sensor
    ∷ []

abbrev flag_cleared : Fine
flag_cleared = record signalled_new {
  globals = record signalled_new.globals { network_changes = false };
  main = at_push ready_device;
}

abbrev told : Fine
told = record flag_cleared {
  globals = record flag_cleared.globals {
    humifier = record humifier { sensor_values = told_values };
  };
  main = at_unlock;
  calls = push_property (codes "D1") (record { index = 0; value = pos 4; age = pos 0 } ∷ []) ∷ [];
}

poll_to_push : Runs env json at_poll humifier.sensor_values told told_values
unfolding main_step network_step push_sensor_data
poll_to_push =
    then_access {x' = flag_cleared} {x'' = told} (by_main good_round)
      (then_access {x'' = flag_cleared} (by_main good_round)
        (then_access {x' = signalled_new} (by_main good_round)
          (then_access {x' = with_answer} {x'' = signalled_new} (by_network (pos 100) (pos 101))
            (then_access {x' = at_poll} {x'' = with_answer} (by_network (pos 100) (pos 101)) at_rest
              tt refl)
            refl refl)
          tt refl)
        tt refl)
      tt refl

no_reading_is_lost_example : IsInStep told told_values
no_reading_is_lost_example = no_reading_is_lost env json poll_to_push (inl (inl refl))

got_late :
    venta_get_data env json network_thread (signal_handler sigterm ready)
    ≡ some (pos 0, record polled_ready { shutdown_flag = 1 })
unfolding venta_get_data signal_handler
got_late = refl

late_poll_faults_example :
    accesses env json
      (by_signal sigterm
        ∷ by_main good_round
        ∷ by_main good_round
        ∷ by_network (pos 100) (pos 101)
        ∷ by_network (pos 105) (pos 106)
        ∷ [])
      resting
    ≡ none
unfolding response_of touches_values
late_poll_faults_example =
    late_poll_faults env json good_round good_round (pos 100) (pos 101) (pos 105) (pos 106) (pos 0)
      resting (record polled_ready { shutdown_flag = 1 }) refl refl got_late refl
