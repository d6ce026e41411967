-- ===== src/Network/Commands.antt =====
-- `venta_get_data`, `venta_set_fan`, `venta_set_mode_sleep`, `venta_set_mode_automatic` of
-- venta/network.c.
pub mod Safety
pub mod Buttons
pub mod Leading
pub mod Steady
pub mod Unlocking
use dss_vdc_venta.Prelude.{
  ℤ, Option, Bool, negsuc, some, none, not, if◌then◌else◌, ◌++◌, ◌∷◌, truth, pos, leb, [], ◌&&◌,
  length, ◌||◌, ◌+◌,
}
use dss_vdc_venta.Network.Action.{Action, ◌>>=◌, ◌>>◌, pure, gets, check}
use dss_vdc_venta.Network.Http.{Env, MemoryStruct, http_post}
use dss_vdc_venta.Network.Json.{JsonC}
use dss_vdc_venta.Network.Parse.{parse_json_data}
use dss_vdc_venta.Types.{Thread}
use dss_vdc_venta.CString.{Bytes, codes}

abbrev pub connect_failed : ℤ
connect_failed = negsuc 12

abbrev pub configchange_failed : ℤ
configchange_failed = negsuc 14

-- `char url[100]`, filled by two calls of `strcat`; a null address cannot be read.
unfoldable pub url_of : Bytes → Option Bytes → Option Bytes
url_of path none = none
url_of path (some ip) =
    let url = codes "http://" ++ (ip ++ path) in if leb (length url + 1) 100 then some url else none

-- The tail of the three setters: the button is posted, and nothing is returned on success.
unfoldable pub button_result : Option MemoryStruct → Option ℤ
button_result none = some configchange_failed
button_result (some response) = none

-- `(!mode && on) || (mode && !on)`
abbrev pub differs : ℤ → Bool → Bool
differs mode on = (not (truth mode) && on) || (truth mode && not on)

module _ (env : Env) where
  unfoldable pub post_button : Bytes → ℤ → Action (Option ℤ)
  unfolding http_post button_result
  post_button url btn = do
    response ← http_post env url (some ((codes "btn", btn) ∷ []))
    pure (button_result response)

  -- The result `none` is the missing `return`: the caller must not look at it.
  unfoldable pub venta_set_fan : ℤ → Action (Option ℤ)
  unfolding url_of post_button
  venta_set_fan btn = do
    ip ← gets (λ g. g.humifier.ip)
    url ← check (url_of (codes "/api/btn") ip)
    post_button url btn

  module _ (json : JsonC) where
    unfoldable pub get_data_result : Thread → Option MemoryStruct → Action ℤ
    unfolding parse_json_data
    get_data_result thread none = pure connect_failed
    get_data_result thread (some response) = do
      now ← gets (λ g. env.time g.posts)
      parse_json_data json thread now response

    unfoldable pub venta_get_data : Thread → Action ℤ
    unfolding url_of http_post get_data_result
    venta_get_data thread = do
      ip ← gets (λ g. g.humifier.ip)
      url ← check (url_of (codes "/api/data") ip)
      response ← http_post env url none
      get_data_result thread response

    unfoldable pub venta_set_mode_sleep : Thread → Bool → Action (Option ℤ)
    unfolding url_of venta_get_data post_button
    venta_set_mode_sleep thread on = do
      ip ← gets (λ g. g.humifier.ip)
      url ← check (url_of (codes "/api/btn") ip)
      venta_get_data thread
      mode ← gets (λ g. g.current_values.mode_sleep)
      if differs mode on then post_button url (pos 5) else pure none

    unfoldable pub venta_set_mode_automatic : Thread → Bool → Action (Option ℤ)
    unfolding url_of venta_get_data post_button
    venta_set_mode_automatic thread on = do
      ip ← gets (λ g. g.humifier.ip)
      url ← check (url_of (codes "/api/btn") ip)
      venta_get_data thread
      mode ← gets (λ g. g.current_values.mode_automatic)
      if differs mode on then post_button url (pos 6) else pure none
