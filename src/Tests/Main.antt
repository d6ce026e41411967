-- ===== src/Tests/Main.antt =====
-- The main loop, the network thread and the push of the values.
use dss_vdc_venta.Main.Threads.{
  Reaches, then_step, try_lock_never_busy, at_start, main_turn, network_turn,
}
use dss_vdc_venta.Network.Safe.{data_request}
use dss_vdc_venta.Prelude.{
  true, false, refl, ◌∷◌, length, some, ◌≡◌, pos, List, [], arith, inl, ◌++◌, ◌≤◌,
}
use dss_vdc_venta.Tests.Fixtures.{
  hum_sensor, no_sensor, device, globals, env, json, humifier, address,
}
use dss_vdc_venta.Types.{Globals, VentaVdcd, main_thread, network_thread, zero_scene}
use dss_vdc_venta.CString.{codes}
use dss_vdc_venta.Network.Commands.{venta_get_data}
use dss_vdc_venta.Main.Push.{pushed, out_of_bounds, running, push_sensor_data}
use dss_vdc_venta.Main.Reports.{
  push_sensor_data_reports, push_sensor_data_overrun, push_sensor_data_stuck,
}
use dss_vdc_venta.Main.Loop.{Call, announce_device, push_property, Round, main_round, try_lock}
use dss_vdc_venta.Main.Locking.{main_round-depth, push_needs_announcement}
use dss_vdc_venta.Main.Delivery.{
  IsGood, IsPending, opening, values_of, Makes, new_values_are_pushed,
}
use dss_vdc_venta.Main.NetworkThread.{Poller, network_round}
use dss_vdc_venta.Main.Polling.{
  poll_end, network_round_idle, network_round_polls, network_round_loses_signal,
}

push_sensor_data_reports_example :
    push_sensor_data 2 (λ k. true) (λ k. pos 100) (hum_sensor ∷ no_sensor ∷ [])
    ≡ pushed
        (record hum_sensor { last_reported = pos 100 } ∷ no_sensor ∷ [])
        (record { index = 0; value = pos 40; age = pos 10 } ∷ [])
push_sensor_data_reports_example =
    push_sensor_data_reports 2 (λ k. pos 100) (hum_sensor ∷ []) no_sensor [] (omega arith)
      (refl, tt) refl

push_sensor_data_overrun_example :
    push_sensor_data 2 (λ k. true) (λ k. pos 100) (hum_sensor ∷ []) ≡ out_of_bounds
push_sensor_data_overrun_example =
    push_sensor_data_overrun 2 (λ k. pos 100) (hum_sensor ∷ []) (omega arith) (refl, tt)

push_sensor_data_stuck_at_input :
    push_sensor_data 1000 (λ k. false) (λ k. pos 100) (hum_sensor ∷ []) ≡ running
push_sensor_data_stuck_at_input = push_sensor_data_stuck 1000 (λ k. pos 100) hum_sensor [] refl

abbrev pub good_round : Round
good_round = record {
  has_session = true;
  announce_ok = true;
  new_ok = λ k. true;
  now = λ k. pos 100;
  fuel = 3;
}

good_round-IsGood : IsGood good_round
good_round-IsGood = record { session = refl; announced = refl; allocated = refl }

globals-IsPending : IsPending globals device (hum_sensor ∷ []) no_sensor []
globals-IsPending = record {
  device = refl;
  present = refl;
  changes = refl;
  slots = refl;
  all_active = (refl, tt);
  inactive = refl;
  ours = inl refl;
}

new_values_are_pushed_example :
    (length (
        opening good_round good_round-IsGood (hum_sensor ∷ []) no_sensor [] device
        ++ values_of good_round good_round-IsGood (hum_sensor ∷ []) no_sensor [] device)
      ≤ 3)
    × Makes good_round good_round-IsGood (hum_sensor ∷ []) no_sensor [] globals (
        opening good_round good_round-IsGood (hum_sensor ∷ []) no_sensor [] device
        ++ values_of good_round good_round-IsGood (hum_sensor ∷ []) no_sensor [] device)
new_values_are_pushed_example =
    new_values_are_pushed good_round good_round-IsGood (hum_sensor ∷ []) no_sensor [] globals device
      globals-IsPending (omega arith)

abbrev announced_globals : Globals
announced_globals = record globals {
  device = some (record device { announced = true });
  network_mutex = record { owner = main_thread; depth = 1 };
}

announces :
    main_round good_round globals ≡ some (announced_globals, announce_device (codes "D1") ∷ [])
unfolding main_round
announces = refl

main_round-depth_example : announced_globals.network_mutex.depth ≡ 1
main_round-depth_example =
    main_round-depth good_round globals announced_globals (announce_device (codes "D1") ∷ [])
      (inl refl) announces

abbrev pub ready_device : VentaVdcd
ready_device = record device { announced = true; present_signaled = true }

abbrev pub ready : Globals
ready = record globals { device = some ready_device }

abbrev pub after_ready : Globals
after_ready = record ready {
  humifier = record humifier {
    sensor_values = record hum_sensor { last_reported = pos 100 } ∷ no_sensor ∷ [];
  };
  network_changes = false;
}

abbrev pub one_push : List Call
one_push = push_property (codes "D1") (record { index = 0; value = pos 40; age = pos 10 } ∷ []) ∷ []

pub pushes : main_round good_round ready ≡ some (after_ready, one_push)
unfolding main_round push_sensor_data
pushes = refl

push_needs_announcement_example :
    (d : VentaVdcd) × (ready.device ≡ some d)
    × (good_round.has_session ≡ true)
    × (d.announced ≡ true)
    × (d.present ≡ d.present_signaled)
    × (ready.network_changes ≡ true)
    × (after_ready.network_changes ≡ false)
push_needs_announcement_example =
    push_needs_announcement good_round ready after_ready one_push pushes tt

abbrev poller : Poller
poller = record { globals = globals; last = pos 90 }

network_round_idle_at_input :
    (p' : Poller) × (network_round env json (pos 95) (pos 96) poller ≡ some (p', []))
    × (p'.globals ≡ globals)
network_round_idle_at_input = network_round_idle env json (pos 95) (pos 96) poller (inl refl)

abbrev pub polled_globals : Globals
polled_globals = record globals {
  humifier = record humifier {
    sensor_values = record hum_sensor { value = pos 4; last_query = pos 100 } ∷ no_sensor ∷ [];
  };
  current_values = record zero_scene { mode_sleep = pos 2; fan = pos 3; current_humidity = pos 4 };
  posts = data_request address ∷ [];
}

got_new : venta_get_data env json network_thread globals ≡ some (pos 0, polled_globals)
unfolding venta_get_data
got_new = refl

network_round_polls_example :
    network_round env json (pos 100) (pos 101) poller
    ≡ some (poll_end (pos 0) (pos 100) (pos 101) polled_globals, [])
network_round_polls_example =
    network_round_polls env json (pos 100) (pos 101) poller (pos 0) polled_globals device refl refl
      got_new refl

-- The slot holds what the humifier will answer: the next poll reports no change.
abbrev same_values : Globals
same_values = record globals {
  humifier = record humifier {
    sensor_values = record hum_sensor { value = pos 4; last_value = pos 4 } ∷ no_sensor ∷ [];
  };
}

abbrev same_polled : Globals
same_polled = record polled_globals {
  humifier = record humifier {
    sensor_values =
        record hum_sensor { value = pos 4; last_value = pos 4; last_query = pos 100 }
        ∷ no_sensor
        ∷ [];
  };
}

got_same : venta_get_data env json network_thread same_values ≡ some (pos 1, same_polled)
unfolding venta_get_data
got_same = refl

network_round_loses_signal_at_input :
    (p' : Poller) × (network_round env json
        (pos 100)
        (pos 101)
        (record { globals = same_values; last = pos 90 })
      ≡ some (p', []))
    × (p'.globals.network_changes ≡ false)
network_round_loses_signal_at_input =
    network_round_loses_signal env json (pos 100) (pos 101)
      (record { globals = same_values; last = pos 90 }) same_polled refl refl refl got_same

abbrev announced_polled : Globals
announced_polled = record polled_globals {
  device = announced_globals.device;
  network_mutex = announced_globals.network_mutex;
}

polls_announced :
    network_round env json
      (pos 100)
      (pos 101)
      (record { globals = announced_globals; last = pos 90 })
    ≡ some (poll_end (pos 0) (pos 100) (pos 101) announced_polled, [])
unfolding network_round venta_get_data
polls_announced = refl

announces_then_polls :
    Reaches env json poller (poll_end (pos 0) (pos 100) (pos 101) announced_polled)
announces_then_polls =
    then_step
      (then_step at_start
        (main_turn good_round announced_globals (announce_device (codes "D1") ∷ []) announces))
      (network_turn (pos 100) (pos 101) [] polls_announced)

try_lock_never_busy_example :
    try_lock main_thread (record { owner = main_thread; depth = 1 })
    ≡ some (record { owner = main_thread; depth = 2 })
try_lock_never_busy_example =
    try_lock_never_busy env json poller (poll_end (pos 0) (pos 100) (pos 101) announced_polled) refl
      announces_then_polls
