-- ===== src/System/Turns.antt =====
-- A round of either thread ends while the process is up, and leaves it up.
use dss_vdc_venta.Vdc.Zone.{held, try_lock_ours}
use dss_vdc_venta.Main.Reports.{slots_after, push_sensor_data_reports, reports_of}
use dss_vdc_venta.Network.Parse.Unlocking.{IsOurs, unlock-IsOurs}
use dss_vdc_venta.Prelude.{
  Option, ◌≡◌, List, true, Bool-cases, Bool, ◌≤◌, some, inr, refl, length, [], inl, false, ◌++◌,
  ◌∷◌, ap, sym, ◌∙◌, arith, length-append, ◌+◌, if◌then◌else◌, not, ℕ,
}
use dss_vdc_venta.Main.Loop.{
  Round, report_changes, signal_presence, Call, released, with_device, locked_round, main_round,
  push_property, announce, announce_device, vanished, identify, round_of,
}
use dss_vdc_venta.System.Running.{
  Facts, IsUp, Goes, Sends-none, HasGap, HasGap-Gap, IsLoaded-same, length-slots_after,
  HasGap-slots_after, Goes-refl,
}
use dss_vdc_venta.Types.{Globals, VentaVdcd, Mutex, SensorValue, main_thread}

-- What a round of the main loop relies on: properties can be made, and the fuel covers the slots.
pub record IsMaking (slots : ℕ) (r : Round) : Type 0 where
  pub makes : r.new_ok ≡ λ k. true
  pub fuel : slots ≤ r.fuel

module _ (f : Facts) where
  -- The device's flags and the mutex change.
  IsUp-with :
      (g : Globals) (d : VentaVdcd) (m : Mutex)
      → d.dsuidstring ≡ f.dsuid
      → IsOurs m
      → IsUp f g
      → IsUp f (record g { device = some d; network_mutex = m })
  IsUp-with g d m same ours u = record {
    humifier = u.humifier;
    device = d;
    there = refl;
    same_dsuid = same;
    ours = ours;
  }

  abbrev RoundGoes : Globals → Option (Globals × List Call) → Type 0
  RoundGoes g o = (g' : Globals) × (calls : List Call) × (o ≡ some (g', calls)) × Goes f g g'

  quiet : (g g' : Globals) → g'.posts ≡ g.posts → IsUp f g' → Goes f g g'
  quiet g g' same u = record { up = u; sends = Sends-none f.ip g g' same }

  released-IsUp : (g : Globals) → IsUp f g → IsUp f (released g)
  released-IsUp g u = record {
    humifier = u.humifier;
    device = u.device;
    there = u.there;
    same_dsuid = u.same_dsuid;
    ours = unlock-IsOurs main_thread g.network_mutex u.ours;
  }

  -- The sensors after a push.
  pushed-IsUp :
      (values : List SensorValue) (g : Globals)
      → HasGap values
      → length values ≡ f.slots
      → IsUp f g
      → IsUp f (record g {
        humifier = record g.humifier { sensor_values = values };
        network_changes = false;
      })
  pushed-IsUp values g gap size u = record {
    humifier = record {
      table =
          IsLoaded-same g.humifier (record g.humifier { sensor_values = values }) f.loaded f.free
            refl refl u.humifier.table;
      identified = u.humifier.identified;
      titled = u.humifier.titled;
      address = u.humifier.address;
      gap = gap;
      size = size;
    };
    device = u.device;
    there = u.there;
    same_dsuid = u.same_dsuid;
    ours = u.ours;
  }

  report_changes-Goes :
      (r : Round) (d : VentaVdcd) (g : Globals)
      → IsMaking f.slots r
      → IsUp f g
      → RoundGoes g (report_changes r d g)
  unfolding report_changes
  report_changes-Goes r d g m u = elim (Bool-cases g.network_changes) [
    | inr unchanged ↦
        (released g, [], rw unchanged refl, quiet g (released g) refl (released-IsUp g u))
    | inl changed ↦
        let gap = HasGap-Gap g.humifier.sensor_values u.humifier.gap in
        let makes = m.makes in
        let slots = gap.slots in
        let size : length (gap.active ++ gap.last ∷ gap.rest) ≡ f.slots =
          ap length (sym slots) ∙ u.humifier.size in
        let enough = m.fuel in
        let values = slots_after r.now 0 gap.active ++ gap.last ∷ gap.rest in
        let pushed_all =
          push_sensor_data_reports r.fuel r.now gap.active gap.last gap.rest
            (omega (arith, length-append gap.active (gap.last ∷ gap.rest))) gap.all_active
            gap.inactive in
        let g1 = record g {
          humifier = record g.humifier { sensor_values = values };
          network_changes = false;
        } in
        let same_size : length values ≡ f.slots = omega (
          arith,
          length-append (slots_after r.now 0 gap.active) (gap.last ∷ gap.rest),
          length-append gap.active (gap.last ∷ gap.rest),
          length-slots_after r.now 0 gap.active,
        ) in
        (
          released g1,
          push_property d.dsuidstring (reports_of r.now 0 gap.active) ∷ [],
          simp (changed, makes, slots, pushed_all),
          quiet g (released g1) refl (
              released-IsUp g1 (
                pushed-IsUp values g
                  (HasGap-slots_after r.now 0 gap.active gap.last gap.rest gap.all_active
                    gap.all_named gap.inactive)
                  same_size u)),
        )
  ]

  either :
      (g : Globals) (b : Bool) (x y : Option (Globals × List Call))
      → RoundGoes g x
      → RoundGoes g y
      → RoundGoes g (if b then x else y)
  either g true x y p q = p
  either g false x y p q = q

  marked :
      (g : Globals) (d' : VentaVdcd) (calls : List Call)
      → d'.dsuidstring ≡ f.dsuid
      → IsUp f g
      → RoundGoes g (some (with_device g d', calls))
  marked g d' calls same u = (
    with_device g d',
    calls,
    refl,
    quiet g (with_device g d') refl (IsUp-with g d' g.network_mutex same u.ours u),
  )

  signal_presence-Goes :
      (r : Round) (d : VentaVdcd) (g : Globals)
      → d.dsuidstring ≡ f.dsuid
      → IsMaking f.slots r
      → IsUp f g
      → RoundGoes g (signal_presence r d g)
  unfolding signal_presence
  signal_presence-Goes r d g same m u =
      let go = report_changes-Goes r d g m u in
      either g (not d.present) _ _
        (either g d.present_signaled _ _
          (marked g (record d { present_signaled = false }) (vanished d.dsuidstring ∷ []) same u)
          go)
        (either g (not d.present_signaled) _ _
          (marked g (record d { present_signaled = true }) (identify d.dsuidstring ∷ []) same u) go)

  announce-Goes :
      (r : Round) (d : VentaVdcd) (g : Globals)
      → d.dsuidstring ≡ f.dsuid
      → IsUp f g
      → RoundGoes g (some (announce r d g))
  unfolding announce
  announce-Goes r d g same u = elim (Bool-cases r.announce_ok) [
    | inl accepted ↦
        rw accepted
          (marked g (record d { announced = true }) (announce_device d.dsuidstring ∷ []) same u)
    | inr refused ↦ rw refused (g, announce_device d.dsuidstring ∷ [], refl, Goes-refl f g u)
  ]

  locked_round-Goes :
      (r : Round) (d : VentaVdcd) (g : Globals)
      → d.dsuidstring ≡ f.dsuid
      → IsMaking f.slots r
      → IsUp f g
      → RoundGoes g (locked_round r d g)
  unfolding locked_round
  locked_round-Goes r d g same m u =
      let g1 = with_device g (record d { announced = false }) in
      either g (not r.has_session) _ _
        (
          released g1,
          [],
          refl,
          quiet g (released g1) refl (
              released-IsUp g1
                (IsUp-with g (record d { announced = false }) g.network_mutex same u.ours u)),
        )
        (either g (not d.announced) _ _ (announce-Goes r d g same u)
          (signal_presence-Goes r d g same m u))

  pub main_round-Goes :
      (r : Round) (g : Globals) → IsMaking f.slots r → IsUp f g → RoundGoes g (main_round r g)
  unfolding main_round
  main_round-Goes r g m u =
      let taken = held (g.network_mutex.depth + 1) in
      let locked = record g { network_mutex = taken } in
      let up : IsUp f locked = record {
        humifier = u.humifier;
        device = u.device;
        there = u.there;
        same_dsuid = u.same_dsuid;
        ours = inr refl;
      } in
      let (g', calls, ran, goes) = locked_round-Goes r u.device locked u.same_dsuid m up in
      (
        g',
        calls,
        ap (λ (o : Option Mutex). round_of r o g.device g) (try_lock_ours g.network_mutex u.ours)
            ∙ ap (λ (d : Option VentaVdcd). round_of r (some taken) d g) u.there
            ∙ ran,
        record {
          up = goes.up;
          sends = record {
            sent = goes.sends.sent;
            posts = goes.sends.posts;
            requests = goes.sends.requests;
          };
        },
      )
