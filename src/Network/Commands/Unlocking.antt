-- ===== src/Network/Commands/Unlocking.antt =====
-- The mutex under the humifier's commands.
use dss_vdc_venta.Prelude.{ℤ, some, Option, none, ℕ}
use dss_vdc_venta.Network.Action.{Action}
use dss_vdc_venta.Network.Action.Leads.{
  Leads, IgnoresPosts, Leads-pure, Leads-gets, Leads-check, Leads-bind,
}
use dss_vdc_venta.Network.Http.{Env, Memory, MemoryStruct, uninitialised, text, null}
use dss_vdc_venta.Network.Json.{JsonC}
use dss_vdc_venta.Network.Parse.{parse_json_data}
use dss_vdc_venta.Network.Parse.Unlocking.{IsOurs, parse_text-IsOurs}
use dss_vdc_venta.Network.Commands.{url_of, get_data_result, venta_get_data, connect_failed}
use dss_vdc_venta.Network.Commands.Leading.{http_post-Leads}
use dss_vdc_venta.Types.{Globals, Thread}
use dss_vdc_venta.CString.{codes}

-- The mutex is free, or the main thread's.
abbrev pub Ours : Globals → Type 0
Ours g = IsOurs g.network_mutex

abbrev pub KeepsOurs : {A : Type 0} → Action A → Type 0
KeepsOurs m = Leads Ours Ours m

pub Ours-IgnoresPosts : IgnoresPosts Ours
Ours-IgnoresPosts g posts ours = ours

module _ (env : Env) (json : JsonC) (thread : Thread) where
  parse_memory-KeepsOurs :
      (now : ℤ) (memory : Memory) (size : ℕ)
      → KeepsOurs (parse_json_data json thread now (record { memory = memory; size = size }))
  unfolding parse_json_data
  parse_memory-KeepsOurs now uninitialised size = record { kept = λ rc g g' o e. absurd (cc e) }
  parse_memory-KeepsOurs now (text bytes) size = record {
    kept = λ rc g g' o e. parse_text-IsOurs json thread now bytes g g' rc o e;
  }
  parse_memory-KeepsOurs now null size = record { kept = λ rc g g' o e. absurd (cc e) }

  parse_json_data-KeepsOurs :
      (now : ℤ) (response : MemoryStruct) → KeepsOurs (parse_json_data json thread now response)
  parse_json_data-KeepsOurs now response = parse_memory-KeepsOurs now response.memory response.size

  get_data_result-KeepsOurs :
      (response : Option MemoryStruct) → KeepsOurs (get_data_result env json thread response)
  unfolding get_data_result
  get_data_result-KeepsOurs none = Leads-pure connect_failed
  get_data_result-KeepsOurs (some response) =
      Leads-bind _ _ (Leads-gets (λ g. env.time g.posts))
        (λ now. parse_json_data-KeepsOurs now response)

  pub venta_get_data-KeepsOurs : KeepsOurs (venta_get_data env json thread)
  unfolding venta_get_data
  venta_get_data-KeepsOurs = Leads-bind _ _ (Leads-gets (λ g. g.humifier.ip)) (λ ip.
      Leads-bind _ _ (Leads-check (url_of (codes "/api/data") ip)) (λ url.
        Leads-bind _ _ (http_post-Leads env Ours-IgnoresPosts url none) get_data_result-KeepsOurs))
