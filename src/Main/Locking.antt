-- ===== src/Main/Locking.antt =====
-- When the main loop pushes, and what it does to the mutex.
use dss_vdc_venta.Network.Parse.Unlocking.{IsOurs}
use dss_vdc_venta.Prelude.{◌≡◌, List, ℕ, some, ◌∷◌, [], suc, ◌+◌, true, false, arith}
use dss_vdc_venta.Main.Loop.{Call, push_property, Round, main_round}
use dss_vdc_venta.Types.{VentaVdcd, Globals}

-- The rounds that end by `continue` behind a call of libdsvdc.
abbrev pub leaks : List Call → ℕ
leaks [] = 0
leaks (push_property _ _ ∷ calls) = leaks calls
leaks (_ ∷ calls) = suc (leaks calls)

-- A round on a mutex that is free or the main thread's own ends with the mutex held as often as
-- before, but once more for each announcement, each sign of presence and each sign of absence that
-- it sent.
pub main_round-depth :
    (r : Round) (g g' : Globals) (calls : List Call)
    → IsOurs g.network_mutex
    → main_round r g ≡ some (g', calls)
    → g'.network_mutex.depth ≡ g.network_mutex.depth + leaks calls
unfolding main_round
main_round-depth r g g' calls o e = ground arith

abbrev pub HasPush : List Call → Type 0
HasPush [] = ⊥
HasPush (push_property _ _ ∷ calls) = Unit
HasPush (_ ∷ calls) = HasPush calls

-- Values are pushed only in a session, for a device that is announced, that was signalled as
-- present if it is, and only when new values were signalled; the signal is taken back.
pub push_needs_announcement :
    (r : Round) (g g' : Globals) (calls : List Call)
    → main_round r g ≡ some (g', calls)
    → HasPush calls
    → (d : VentaVdcd) × (g.device ≡ some d)
      × (r.has_session ≡ true)
      × (d.announced ≡ true)
      × (d.present ≡ d.present_signaled)
      × (g.network_changes ≡ true)
      × (g'.network_changes ≡ false)
unfolding main_round
push_needs_announcement r g g' calls e p = ground arith
