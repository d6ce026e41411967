-- ===== src/System/Callbacks.antt =====
-- Each callback returns while the process is up, and leaves it up.
use dss_vdc_venta.Vdc.Unlocking.{vdc_callscene_cb-KeepsOurs}
use dss_vdc_venta.Vdc.SceneSafety.{vdc_callscene_cb_total}
use dss_vdc_venta.Vdc.CallScene.{vdc_callscene_cb}
use dss_vdc_venta.Scenes.Configured.{FitsBuffer}
use dss_vdc_venta.Vdc.GetProp.Safe.{vdc_getprop_cb_returns}
use dss_vdc_venta.Vdc.GetProp.Sensors.{asked_index}
use dss_vdc_venta.Network.Commands.Safety.{IsAnswering}
use dss_vdc_venta.Vdc.Ping.{vdc_ping_cb, vdc_ping_cb_answers}
use dss_vdc_venta.Vdc.GetProp.Callback.{GetEffect, vdc_getprop_cb}
use dss_vdc_venta.Network.Json.{JsonC}
use dss_vdc_venta.Vdc.GetProp.Returns.{IsReadable, Defined}
use dss_vdc_venta.Vdc.Requests.{
  vdc_request_generic_cb, vdc_savescene_cb, GenericProperty, generic_blocks,
}
use dss_vdc_venta.Network.Http.{Env}
use dss_vdc_venta.CString.{Bytes, print_int, strcasecmp_eq}
use dss_vdc_venta.Prelude.{
  length, Option, ℕ, ◌≤◌, ◌≡◌, List, Bool, some, ℤ, refl, true, ap, if◌then◌else◌, false,
}
use dss_vdc_venta.System.Running.{
  with_mutex-IsUp, Facts, IsUp, HasGap-Gap, Goes, Sends-none, Advances-Goes,
}
use dss_vdc_venta.Vdc.GetProp.Reply.{Query}
use dss_vdc_venta.Types.{Globals, VentaVdcd}

-- What a query relies on beside the globals: short texts, a first name that is no wildcard, and that
-- properties can be made.
pub record IsAskable (q : Query) : Type 0 where
  pub short_host : length q.hostname ≤ 63
  pub short_number : length (print_int q.id_as_int) ≤ 11
  pub index : Defined (asked_index q.first_element)
  pub makes : (k : ℕ) → q.new_ok k ≡ true

pub record AreShort (f : Facts) : Type 0 where
  pub short_id : length f.id ≤ 240
  pub short_name : length f.name ≤ 240
  pub short_ip : length f.ip ≤ 83

module _ (f : Facts) (short : AreShort f) where
  abbrev pub Returns : Globals → Option Globals → Type 0
  Returns g o = (g' : Globals) × (o ≡ some g') × Goes f g g'

  IsUp-IsReadable : (q : Query) (g : Globals) → IsAskable q → IsUp f g → IsReadable q g.humifier
  IsUp-IsReadable q g a u =
      let gap = HasGap-Gap g.humifier.sensor_values u.humifier.gap in
      record {
        id = f.id;
        has_id = u.humifier.identified;
        short_id = short.short_id;
        name = f.name;
        has_name = u.humifier.titled;
        short_name = short.short_name;
        short_host = a.short_host;
        short_number = a.short_number;
        active = gap.active;
        last = gap.last;
        rest = gap.rest;
        slots = gap.slots;
        all_active = gap.all_active;
        inactive = gap.inactive;
        all_named = gap.all_named;
        index = a.index;
        makes = a.makes;
      }

  pub vdc_getprop_cb-Goes :
      (q : Query) (dsuid : Bytes) (g : Globals)
      → IsAskable q
      → IsUp f g
      → (g' : Globals) × (effects : List GetEffect) × (vdc_getprop_cb q dsuid g
          ≡ some (g', effects))
        × Goes f g g'
  vdc_getprop_cb-Goes q dsuid g a u =
      let (g', effects, ran, once, same, depth, ours) =
        vdc_getprop_cb_returns q g (IsUp-IsReadable q g a u) dsuid u.device u.ours u.there in
      (
        g',
        effects,
        ran,
        record {
          up = rw same (with_mutex-IsUp f g'.network_mutex g ours u);
          sends = Sends-none f.ip g g' (ap (λ (x : Globals). x.posts) same);
        },
      )

  pub vdc_callscene_cb-Goes :
      (env : Env) (json : JsonC) (dsuid : Bytes) (scene : ℤ) (g : Globals)
      → IsAnswering env json
      → FitsBuffer scene
      → IsUp f g
      → (g' : Globals) × (vdc_callscene_cb env json dsuid scene g ≡ some (tt, g')) × Goes f g g'
  vdc_callscene_cb-Goes env json dsuid scene g answers fits u =
      let (g', ran, advances) =
        vdc_callscene_cb_total env json f.ip short.short_ip answers g u.humifier.address f.loaded
          f.free u.humifier.table scene dsuid u.device fits u.there in
      let ours = (vdc_callscene_cb-KeepsOurs env json dsuid scene).kept tt g g' u.ours ran in
      (g', ran, Advances-Goes f g g' advances ours u)

  pub vdc_ping_cb-returns :
      (dsuid : Bytes) (g : Globals)
      → IsUp f g
      → (pongs : List Bytes) × (vdc_ping_cb dsuid g ≡ some pongs)
  vdc_ping_cb-returns dsuid g u =
      let (pongs, ran, _, _, _) = vdc_ping_cb_answers dsuid g u.device u.there in (pongs, ran)

  pub vdc_request_generic_cb-returns :
      (allocated : ℕ → Bool) (dsuid : Bytes) (ps : List GenericProperty) (g : Globals)
      → IsUp f g
      → (blocks : ℕ) × (vdc_request_generic_cb allocated dsuid ps g ≡ some blocks)
  unfolding vdc_request_generic_cb
  vdc_request_generic_cb-returns allocated dsuid ps g u =
      let there = u.there in
      (
        if strcasecmp_eq u.device.dsuidstring dsuid then generic_blocks allocated ps 0 else 0,
        rw (there, vdc_request_generic_cb) refl,
      )

  if_same : {A : Type 0} (b : Bool) (a : A) → (if b then a else a) ≡ a
  if_same true a = refl
  if_same false a = refl

  saves_nothing :
      (dsuid : Bytes) (g : Globals) (d : VentaVdcd) (o : Option Globals)
      → g.device ≡ some d
      → some (if strcasecmp_eq d.dsuidstring dsuid then g else g) ≡ o
      → vdc_savescene_cb dsuid g ≡ o
  unfolding vdc_savescene_cb
  saves_nothing dsuid g d o there e = rw (there, vdc_savescene_cb) e

  pub vdc_savescene_cb-same :
      (dsuid : Bytes) (g : Globals) → IsUp f g → vdc_savescene_cb dsuid g ≡ some g
  vdc_savescene_cb-same dsuid g u =
      saves_nothing dsuid g u.device (some g) u.there
        (ap some (if_same (strcasecmp_eq u.device.dsuidstring dsuid) g))
