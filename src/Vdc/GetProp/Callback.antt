-- ===== src/Vdc/GetProp/Callback.antt =====
-- The callback: who is asked, the mutex, and the response.
use dss_vdc_venta.Network.Parse.{unlock}
use dss_vdc_venta.Prelude.{Bool, not, Option, none, some, List, [], ◌∷◌, if◌then◌else◌}
use dss_vdc_venta.CString.{Bytes, strcasecmp_eq}
use dss_vdc_venta.Types.{Globals, VentaVdcd, Mutex, main_thread}
use dss_vdc_venta.Main.Loop.{try_lock, released}
use dss_vdc_venta.Vdc.GetProp.Reply.{Query, Answer}
use dss_vdc_venta.Vdc.GetProp.Connector.{connector_answers}
use dss_vdc_venta.Vdc.GetProp.Device.{device_answers}

-- What the callback does with the property, and the unlocking of the mutex, in order.
pub data GetEffect : Type 0 where
  send_response : Answer → GetEffect
  unlock_mutex : GetEffect
  property_free : GetEffect

-- After a name that cannot be read the response goes out before the mutex is unlocked.
abbrev pub get_effects : Bool → Answer → List GetEffect
get_effects over answer =
    if over
    then unlock_mutex ∷ send_response answer ∷ []
    else send_response answer ∷ unlock_mutex ∷ []

abbrev pub answered : Globals → Option (Bool × Answer) → Option (Globals × List GetEffect)
answered g none = none
answered g (some (over, answer)) = some (released g, get_effects over answer)

abbrev pub responded : Globals → Option Answer → Option (Globals × List GetEffect)
responded g none = none
responded g (some answer) = some (g, send_response answer ∷ [])

-- The loop inside the mutex; `none` for the mutex would be a wait for another thread.
abbrev pub get_device_locked : Query → Globals → Option Mutex → Option (Globals × List GetEffect)
get_device_locked q g none = none
get_device_locked q g (some m) =
    answered (record g { network_mutex = m }) (device_answers q g.humifier q.names 0)

abbrev pub get_device :
    Query → Bytes → Globals → Option VentaVdcd → Option (Globals × List GetEffect)
get_device q dsuid g none = none
get_device q dsuid g (some d) =
    if not (strcasecmp_eq d.dsuidstring dsuid)
    then some (g, property_free ∷ [])
    else get_device_locked q g (try_lock main_thread g.network_mutex)

unfoldable pub vdc_getprop_cb : Query → Bytes → Globals → Option (Globals × List GetEffect)
unfolding connector_answers device_answers strcasecmp_eq try_lock unlock
vdc_getprop_cb q dsuid g =
    if strcasecmp_eq g.vdc_dsuid dsuid
    then responded g (connector_answers q g q.names 0)
    else get_device q dsuid g g.device
