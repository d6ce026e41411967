-- ===== src/Vdc/FromStart.antt =====
-- From the reading of the configuration to a called scene.
use dss_vdc_venta.Prelude.{length, ◌≤◌, some, true, ◌≡◌, pos, ℤ}
use dss_vdc_venta.Config.Libconfig.{Libconfig}
use dss_vdc_venta.Config.Read.{regular, returned, vdcd_of, read_config}
use dss_vdc_venta.Config.Read.Startup.{IsUsable, read_config-Started}
use dss_vdc_venta.Network.Http.{Env}
use dss_vdc_venta.Network.Json.{JsonC}
use dss_vdc_venta.Network.Safe.{Advances}
use dss_vdc_venta.Network.Commands.Safety.{IsAnswering}
use dss_vdc_venta.Scenes.Configured.{FitsBuffer}
use dss_vdc_venta.Vdc.CallScene.{vdc_callscene_cb}
use dss_vdc_venta.Vdc.SceneSafety.{vdc_callscene_cb_total}
use dss_vdc_venta.CString.{Bytes}
use dss_vdc_venta.Types.{Globals}

-- After a usable configuration with an address of at most 83 bytes was read, a call of any scene
-- number that fits the buffer, for any device, returns without undefined behaviour, the messages of
-- vdc_report and their arguments left out. It changes readings only, and gives libcurl nothing but
-- requests for values and presses of the buttons 3 to 6, with the URLs of the configured address.
pub callscene_from_start :
    (lib : Libconfig) (env : Env) (json : JsonC) (c : lib.Config) (id ip : Bytes)
    (dsuid_of : Bytes → Bytes) (g : Globals)
    → IsUsable lib c id ip
    → length ip ≤ 83
    → IsAnswering env json
    → (scene : ℤ) (dsuid : Bytes) → FitsBuffer scene
    → (g' : Globals) × (read_config lib regular (some c) true dsuid_of g
        ≡ some (returned (pos 0), g'))
      × (g'' : Globals) × (vdc_callscene_cb env json dsuid scene g' ≡ some (tt, g''))
      × Advances ip g' g''
callscene_from_start lib env json c id ip dsuid_of g u short answers scene dsuid fits =
    let (g', ran, s) = read_config-Started lib c id ip dsuid_of g u in
    let (g'', called, advances) =
      vdc_callscene_cb_total env json ip short answers g' s.address s.loaded s.free s.table scene
        dsuid (vdcd_of (dsuid_of id)) fits s.device in
    (g', ran, g'', called, advances)
