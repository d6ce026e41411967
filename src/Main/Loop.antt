-- ===== src/Main/Loop.antt =====
-- One round of the loop of `main` in venta/main.c, after `dsvdc_work` has run the callbacks.
use dss_vdc_venta.Prelude.{
  List, Bool, Option, some, ℕ, if◌then◌else◌, false, [], ℤ, ◌==◌, true, ◌∷◌, not, none, ◌||◌, ◌+◌,
}
use dss_vdc_venta.Main.Push.{Report, PushResult, pushed, push_sensor_data}
use dss_vdc_venta.Types.{VentaVdcd, Thread, main_thread, Mutex, Globals}
use dss_vdc_venta.Network.Parse.{same_thread, unlock}
use dss_vdc_venta.CString.{Bytes}

-- The calls of libdsvdc, in order.
pub data Call : Type 0 where
  announce_device vanished identify : Bytes → Call
  push_property : Bytes → List Report → Call

-- What libdsvdc and the clock answer in the round.
pub record Round : Type 0 where
  pub has_session : Bool
  pub announce_ok : Bool
  pub new_ok : ℕ → Bool
  pub now : ℕ → ℤ
  pub fuel : ℕ

-- pthread_mutex_trylock on a recursive mutex; `none` is EBUSY.
unfoldable pub try_lock : Thread → Mutex → Option Mutex
try_lock t m =
    if m.depth == 0 || same_thread t m.owner
    then some (record { owner = t; depth = m.depth + 1 })
    else none

abbrev pub with_device : Globals → VentaVdcd → Globals
with_device g d = record g { device = some d }

abbrev pub released : Globals → Globals
released g = record g { network_mutex = unlock main_thread g.network_mutex }

-- `announce_device`, in the branch for a device that is not announced. The mutex stays locked.
unfoldable pub announce : Round → VentaVdcd → Globals → Globals × List Call
announce r d g = (
  if r.announce_ok then with_device g (record d { announced = true }) else g,
  announce_device d.dsuidstring ∷ [],
)

abbrev pub after_push : VentaVdcd → Globals → PushResult → Option (Globals × List Call)
after_push d g (pushed values reports) = some (
  released (record g {
    humifier = record g.humifier { sensor_values = values };
    network_changes = false;
  }),
  push_property d.dsuidstring reports ∷ [],
)
after_push d g _ = none

-- The end of the round: new values are pushed, and the mutex is released. `none` stands for a loop
-- that reads past the array or is still running.
unfoldable pub report_changes : Round → VentaVdcd → Globals → Option (Globals × List Call)
unfolding unlock
report_changes r d g =
    if g.network_changes
    then after_push d g (push_sensor_data r.fuel r.new_ok r.now g.humifier.sensor_values)
    else some (released g, [])

-- Presence is signalled once; those rounds end with the mutex locked.
unfoldable pub signal_presence : Round → VentaVdcd → Globals → Option (Globals × List Call)
unfolding report_changes
signal_presence r d g =
    if not d.present
    then if d.present_signaled
      then some (with_device g (record d { present_signaled = false }), vanished d.dsuidstring ∷ [])
      else report_changes r d g
    else if not d.present_signaled
    then some (with_device g (record d { present_signaled = true }), identify d.dsuidstring ∷ [])
    else report_changes r d g

-- The round with the mutex taken.
unfoldable pub locked_round : Round → VentaVdcd → Globals → Option (Globals × List Call)
unfolding announce signal_presence unlock
locked_round r d g =
    if not r.has_session
    then some (released (with_device g (record d { announced = false })), [])
    else if not d.announced
    then some (announce r d g)
    else signal_presence r d g

-- A null `humifier_device` is read through.
abbrev pub round_of :
    Round → Option Mutex → Option VentaVdcd → Globals → Option (Globals × List Call)
round_of r none device g = some (g, [])
round_of r (some m) none g = none
round_of r (some m) (some d) g = locked_round r d (record g { network_mutex = m })

unfoldable pub main_round : Round → Globals → Option (Globals × List Call)
unfolding locked_round try_lock
main_round r g = round_of r (try_lock main_thread g.network_mutex) g.device g
