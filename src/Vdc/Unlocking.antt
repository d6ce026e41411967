-- ===== src/Vdc/Unlocking.antt =====
-- The mutex under a called scene.
use dss_vdc_venta.Prelude.{ℤ}
use dss_vdc_venta.Network.Http.{Env}
use dss_vdc_venta.Network.Json.{JsonC}
use dss_vdc_venta.Network.Commands.Unlocking.{
  KeepsOurs, Ours-IgnoresPosts, venta_get_data-KeepsOurs,
}
use dss_vdc_venta.Types.{main_thread}
use dss_vdc_venta.CString.{Bytes}
use dss_vdc_venta.Vdc.CallScene.{vdc_callscene_cb}
use dss_vdc_venta.Vdc.Leading.{vdc_callscene_cb-Leads}

pub vdc_callscene_cb-KeepsOurs :
    (env : Env) (json : JsonC) (dsuid : Bytes) (scene : ℤ)
    → KeepsOurs (vdc_callscene_cb env json dsuid scene)
vdc_callscene_cb-KeepsOurs env json =
    vdc_callscene_cb-Leads env json Ours-IgnoresPosts
      (venta_get_data-KeepsOurs env json main_thread)
