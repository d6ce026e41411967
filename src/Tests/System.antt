-- ===== src/Tests/System.antt =====
-- The process from its start on.
use dss_vdc_venta.Tests.Start.{host-IsReady}
use dss_vdc_venta.Tests.GetProp.{query}
use dss_vdc_venta.Tests.Fixtures.{
  device, lib, globals, humifier, address, humifier-IsLoaded, env, scene_5, json, scene_17,
  free_scene, env-IsAnswering,
}
use dss_vdc_venta.System.Schedules.{IsAcceptable, any_schedule_returns}
use dss_vdc_venta.Scenes.Configured.{FitsBuffer}
use dss_vdc_venta.System.{
  Event, run, network_turn, scene_called, main_turn, properties_read, properties_set, pinged,
  signalled,
}
use dss_vdc_venta.Vdc.SetProp.{Property, named}
use dss_vdc_venta.Main.NetworkThread.{Poller}
use dss_vdc_venta.System.Running.{Facts, IsUp, Goes}
use dss_vdc_venta.System.FromStart.{network_started}
use dss_vdc_venta.CString.{print_int, codes, strcasecmp_eq}
use dss_vdc_venta.Prelude.{
  Option, ℤ, zero, suc, none, false, List, All, ℕ, true, arith, pos, refl, ◌∷◌, inr, inl, ◌≡◌, [],
  some,
}
use dss_vdc_venta.Main.Signals.{sigterm}
use dss_vdc_venta.Main.Loop.{Round}
use dss_vdc_venta.Types.{Scene, zero_scene}
use dss_vdc_venta.System.Unreported.{Calls, scene_change_unreported}
use dss_vdc_venta.Network.Commands.Steady.{IsSteady}
use dss_vdc_venta.Network.Parse.Changes.Settled.{Reads, Holds}
use dss_vdc_venta.Network.Http.{text, response_of}
use dss_vdc_venta.Sensors.{find_sensor_value_by_name}
use dss_vdc_venta.Scenes.{is_scene_configured, get_scene_configuration}

abbrev good_round : Round
good_round = record {
  has_session = true;
  announce_ok = true;
  new_ok = λ k. true;
  now = λ k. pos 100;
  fuel = 15;
}

abbrev zone_5 : Property
zone_5 = record { name = named (codes "zoneID"); uint = some 5 }

abbrev events : List Event
events =
    network_turn (pos 100) (pos 101)
    ∷ scene_called (codes "D1") (pos 5)
    ∷ main_turn good_round
    ∷ properties_set true (codes "V1") (zone_5 ∷ [])
    ∷ properties_read query (codes "D1")
    ∷ pinged (codes "L1")
    ∷ signalled sigterm
    ∷ main_turn good_round
    ∷ []

five-FitsBuffer : FitsBuffer (pos 5)
unfolding print_int
five-FitsBuffer = omega arith

abbrev facts : Facts
facts = record {
  id = codes "AH550";
  name = codes "Venta";
  ip = address;
  dsuid = codes "D1";
  loaded = scene_5 ∷ scene_17 ∷ [];
  free = free_scene ∷ [];
  slots = 2;
}

globals-IsUp : IsUp facts globals
globals-IsUp = record {
  humifier = record {
    table = humifier-IsLoaded;
    identified = refl;
    titled = refl;
    address = refl;
    gap = inr (refl, (codes "Hum", refl), inl refl);
    size = refl;
  };
  device = device;
  there = refl;
  same_dsuid = refl;
  ours = inl refl;
}

-- With two slots in place of fifteen.
short_events : All (IsAcceptable 2) (scene_called (codes "D1") (pos 5) ∷ main_turn good_round ∷ [])
short_events = (five-FitsBuffer, (record { makes = refl; fuel = omega arith }, tt))

any_schedule_returns_at_input :
    (p : Poller) × (run lib
        (codes "a.cfg")
        env
        json
        (scene_called (codes "D1") (pos 5) ∷ main_turn good_round ∷ [])
        (network_started globals)
      ≡ some p)
    × Goes facts globals p.globals
any_schedule_returns_at_input =
    any_schedule_returns lib (codes "a.cfg") host-IsReady.writable (omega arith) facts
      (record { short_id = omega arith; short_name = omega arith; short_ip = omega arith }) env json
      env-IsAnswering (scene_called (codes "D1") (pos 5) ∷ main_turn good_round ∷ [])
      (network_started globals) short_events globals-IsUp

-- The humidity is 4 in every answer, and was 40 before.
abbrev hum_reads : ℕ → Option ℤ
hum_reads zero = some (pos 4)
hum_reads (suc i) = none

in_answer :
    Reads json hum_reads ((codes "sleep", 2) ∷ (codes "fan", 3) ∷ (codes "hum", 4) ∷ []) humifier
unfolding find_sensor_value_by_name
in_answer zero = refl
in_answer (suc i) = ground arith

hum-Holds : Holds 0 hum_reads humifier
hum-Holds zero v x there r = λ e. cc (there, e)
hum-Holds (suc i) v x there r = absurd (cc r)

globals-IsSteady : IsSteady env json hum_reads address 0 globals
unfolding response_of
globals-IsSteady = record {
  address = refl;
  short = omega arith;
  answers = λ posts. record {
    memory = record { memory = text (codes "x"); size = 1 };
    bytes = codes "x";
    object = 0;
    device = 1;
    in_device = (codes "sleep", 2) ∷ (codes "fan", 3) ∷ (codes "hum", 4) ∷ [];
    got = refl;
    is_text = refl;
    parses = refl;
    holds_device = refl;
    holds_readings = refl;
    readings = in_answer;
  };
  held = hum-Holds;
}

abbrev scene_found : Scene
scene_found = record zero_scene {
  fan = scene_5.fan;
  mode_automatic = scene_5.mode_automatic;
  mode_sleep = scene_5.mode_sleep;
}

globals-Calls : Calls env json (codes "D1") (pos 5) scene_found globals
unfolding is_scene_configured get_scene_configuration strcasecmp_eq
globals-Calls = record {
  device = device;
  there = refl;
  ours = refl;
  configured = refl;
  found = refl;
}

scene_change_unreported_example :
    (p' : Poller) × (run lib
        (codes "a.cfg")
        env
        json
        (scene_called (codes "D1") (pos 5) ∷ network_turn (pos 100) (pos 101) ∷ [])
        (record { globals = globals; last = pos 90 })
      ≡ some p')
    × (p'.globals.network_changes ≡ false)
    × Holds 2 hum_reads p'.globals.humifier
scene_change_unreported_example =
    scene_change_unreported env json lib (codes "a.cfg") facts hum_reads (codes "D1") (pos 5)
      scene_found (record { globals = globals; last = pos 90 }) (pos 100) (pos 101)
      (record { short_id = omega arith; short_name = omega arith; short_ip = omega arith })
      env-IsAnswering globals-IsUp five-FitsBuffer globals-Calls (inl (inl refl)) globals-IsSteady
      refl refl
