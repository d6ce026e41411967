-- ===== src/Main/Delivery.antt =====
-- New values reach the server.
use dss_vdc_venta.Network.Parse.{unlock}
use dss_vdc_venta.Prelude.{
  ℕ, ◌≡◌, List, ◌+◌, Option, true, some, [], ◌++◌, suc, ◌∷◌, ◌>>=◌, false, zero, arith, ◌∙◌, length,
  inr, ◌<◌, refl, if◌then◌else◌, ◌≤◌, Bool-cases, inl,
}
use dss_vdc_venta.Main.Loop.{
  Call, announce_device, identify, push_property, Round, try_lock, locked_round, signal_presence,
  report_changes, main_round,
}
use dss_vdc_venta.Main.Push.{push_sensor_data, pushed}
use dss_vdc_venta.Main.Reports.{AllActive, reports_of, slots_after, push_sensor_data_reports}
use dss_vdc_venta.Network.Parse.Unlocking.{IsOurs}
use dss_vdc_venta.Types.{SensorValue, VentaVdcd, Globals, main_thread}

-- The same round again and again, with all calls of libdsvdc.
unfoldable pub rounds : ℕ → Round → Globals → Option (Globals × List Call)
unfolding main_round
rounds zero r g = some (g, [])
rounds (suc n) r g = do
  (g', calls) ← main_round r g
  (g'', later) ← rounds n r g'
  some (g'', calls ++ later)

-- A round in a session in which everything succeeds.
pub record IsGood (r : Round) : Type 0 where
  pub session : r.has_session ≡ true
  pub announced : r.announce_ok ≡ true
  pub allocated : r.new_ok ≡ (λ k. true)

-- A present device with new values, on a mutex that is free or the main thread's own.
pub record IsPending (g : Globals) (d : VentaVdcd) (active : List SensorValue) (v : SensorValue)
    (rest : List SensorValue) : Type 0 where
  pub device : g.device ≡ some d
  pub present : d.present ≡ true
  pub changes : g.network_changes ≡ true
  pub slots : g.humifier.sensor_values ≡ active ++ v ∷ rest
  pub all_active : AllActive active
  pub inactive : v.is_active ≡ false
  pub ours : IsOurs g.network_mutex

abbrev locked : Globals → Globals
locked g = record g {
  network_mutex = record { owner = main_thread; depth = g.network_mutex.depth + 1 };
}

main_round-locked :
    (r : Round) (g : Globals) (d : VentaVdcd)
    → IsOurs g.network_mutex
    → g.device ≡ some d
    → main_round r g ≡ locked_round r d (locked g)
unfolding main_round try_lock
main_round-locked r g d o e = ground arith

abbrev with_announced : VentaVdcd → VentaVdcd
with_announced d = record d { announced = true }

abbrev with_signal : VentaVdcd → VentaVdcd
with_signal d = record d { present_signaled = true }

module _ (r : Round) (good : IsGood r) (active : List SensorValue) (v : SensorValue)
    (rest : List SensorValue) where
  -- An announcement, or a sign of presence, leaves the new values pending.
  announce_round :
      (g : Globals) (d : VentaVdcd)
      → IsPending g d active v rest
      → d.announced ≡ false
      → (g' : Globals) × (main_round r g ≡ some (g', announce_device d.dsuidstring ∷ []))
        × IsPending g' (with_announced d) active v rest
  unfolding locked_round
  announce_round g d p a = (
    record (locked g) { device = some (with_announced d) },
    main_round-locked r g d p.ours p.device ∙ ground (arith, good.session, good.announced),
    record {
      device = refl;
      present = p.present;
      changes = p.changes;
      slots = p.slots;
      all_active = p.all_active;
      inactive = p.inactive;
      ours = inr refl;
    },
  )

  signal_round :
      (g : Globals) (d : VentaVdcd)
      → IsPending g d active v rest
      → d.announced ≡ true
      → d.present_signaled ≡ false
      → (g' : Globals) × (main_round r g ≡ some (g', identify d.dsuidstring ∷ []))
        × IsPending g' (with_signal d) active v rest
  unfolding locked_round signal_presence
  signal_round g d p a b = (
    record (locked g) { device = some (with_signal d) },
    main_round-locked r g d p.ours p.device ∙ ground (arith, good.session, p.present),
    record {
      device = refl;
      present = p.present;
      changes = p.changes;
      slots = p.slots;
      all_active = p.all_active;
      inactive = p.inactive;
      ours = inr refl;
    },
  )

  push_round :
      (g : Globals) (d : VentaVdcd)
      → IsPending g d active v rest
      → length active < r.fuel
      → d.announced ≡ true
      → d.present_signaled ≡ true
      → (g' : Globals) × (main_round r g
          ≡ some (g', push_property d.dsuidstring (reports_of r.now 0 active) ∷ []))
  unfolding locked_round signal_presence report_changes
  push_round g d p enough a b =
      let all_pushed : push_sensor_data r.fuel r.new_ok r.now g.humifier.sensor_values
          ≡ pushed (slots_after r.now 0 active ++ v ∷ rest) (reports_of r.now 0 active) =
        simp (p.slots, good.allocated)
          (push_sensor_data_reports r.fuel r.now active v rest enough p.all_active p.inactive) in
      (
        record g {
          network_mutex = unlock main_thread (locked g).network_mutex;
          humifier = record g.humifier { sensor_values = slots_after r.now 0 active ++ v ∷ rest };
          network_changes = false;
        },
        main_round-locked r g d p.ours p.device
            ∙ simp (good.session, a, p.present, b, p.changes, all_pushed) refl,
      )

  -- The calls that come before the values.
  abbrev pub opening : VentaVdcd → List Call
  opening d =
      (if d.announced then [] else announce_device d.dsuidstring ∷ [])
      ++ (if d.present_signaled then [] else identify d.dsuidstring ∷ [])

  abbrev pub values_of : VentaVdcd → List Call
  values_of d = push_property d.dsuidstring (reports_of r.now 0 active) ∷ []

  -- The rounds from here on make these calls.
  abbrev pub Makes : Globals → List Call → Type 0
  Makes g calls = (g' : Globals) × (rounds (length calls) r g ≡ some (g', calls))

  first_round :
      (g g' : Globals) (call : Call) (calls : List Call)
      → main_round r g ≡ some (g', call ∷ [])
      → Makes g' calls
      → Makes g (call ∷ calls)
  unfolding rounds
  first_round g g' call calls ran (last, more) = (last, simp (ran, more) refl)

  deliver_signalled :
      (g : Globals) (d : VentaVdcd)
      → IsPending g d active v rest
      → length active < r.fuel
      → d.announced ≡ true
      → d.present_signaled ≡ true
      → Makes g (values_of d)
  unfolding rounds
  deliver_signalled g d p enough a b =
      let (g', ran) = push_round g d p enough a b in
      first_round g g' (push_property d.dsuidstring (reports_of r.now 0 active)) [] ran (g', refl)

  deliver_announced :
      (g : Globals) (d : VentaVdcd)
      → IsPending g d active v rest
      → length active < r.fuel
      → d.announced ≡ true
      → Makes g ((if d.present_signaled then [] else identify d.dsuidstring ∷ []) ++ values_of d)
  deliver_announced g d p enough a = elim (Bool-cases d.present_signaled) [
    | inl signalled ↦ simp signalled (deliver_signalled g d p enough a signalled)
    | inr silent ↦
        let (g', ran, p') = signal_round g d p a silent in
        simp silent (
          first_round g g' (identify d.dsuidstring) (values_of d) ran
            (deliver_signalled g' (with_signal d) p' enough a refl))
  ]

  length-opening : (d : VentaVdcd) → length (opening d ++ values_of d) ≤ 3
  length-opening d = ground arith

  -- In a session in which everything succeeds, and while no round of the network thread comes between
  -- them, at most three rounds of the main loop push the signalled new values of a present device,
  -- with one report for each active sensor: a device that is not announced is announced first, and
  -- its presence is signalled first if it was not.
  pub new_values_are_pushed :
      (g : Globals) (d : VentaVdcd)
      → IsPending g d active v rest
      → length active < r.fuel
      → (length (opening d ++ values_of d) ≤ 3) × Makes g (opening d ++ values_of d)
  new_values_are_pushed g d p enough = elim (Bool-cases d.announced) [
    | inl announced ↦ (length-opening d, simp announced (deliver_announced g d p enough announced))
    | inr unknown ↦
        let (g', ran, p') = announce_round g d p unknown in
        let later =
          (if d.present_signaled then [] else identify d.dsuidstring ∷ []) ++ values_of d in
        (
          length-opening d,
          simp unknown (
              first_round g g' (announce_device d.dsuidstring) later ran
                (deliver_announced g' (with_announced d) p' enough refl)),
        )
  ]
