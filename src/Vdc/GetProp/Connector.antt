-- ===== src/Vdc/GetProp/Connector.antt =====
-- The properties of the connector itself.
use dss_vdc_venta.Prelude.{
  ℕ, ◌+◌, true, false, Option, some, List, [], ◌∷◌, ◌++◌, leb, length, guard, ◌>>=◌, ◌>>◌,
}
use dss_vdc_venta.CString.{Bytes, codes, print_int}
use dss_vdc_venta.Types.{Globals}
use dss_vdc_venta.Vdc.SetProp.{PropertyName, name_error, wildcard, named}
use dss_vdc_venta.Vdc.GetProp.Reply.{
  text, uint, bool, leaf, Answer, Query, Built, Reply, Case, constant, run_case, add_text, grouped,
  to_uint, joined_in,
}

-- The identifier behind a beginning: the number is printed into a buffer of 32 bytes first.
unfoldable pub id_text : Query → Bytes → Option Bytes
unfolding print_int joined_in
id_text q start = do
  guard (leb (length (print_int q.id_as_int) + 1) 32)
  joined_in 256 start (some (print_int q.id_as_int))

-- "Venta Humifier Controller @" and the name of the host, in HOST_NAME_MAX + 32 bytes. The name is
-- read from HOST_NAME_MAX bytes, 64, and has no NUL there if it is longer than 63.
unfoldable pub service_name : Query → Option Bytes
unfolding joined_in
service_name q = do
  guard (leb (length q.hostname + 1) 64)
  joined_in 96 (codes "Venta Humifier Controller @") (some q.hostname)

abbrev pub capabilities : Reply
capabilities =
    (codes "metering", leaf (bool false)) ∷ (codes "dynamicDefinitions", leaf (bool true)) ∷ []

module _ (q : Query) (g : Globals) where
  -- The chain of tests on the name, without the branches that do nothing: "vendorId", "oemGuid" and
  -- "configURL".
  unfoldable pub connector_cases : List Case
  unfolding id_text service_name grouped joined_in
  connector_cases =
      (codes "hardwareGuid", λ name k. add_text name k (id_text q (codes "humifier-id:")))
      ∷ (codes "displayId", λ name k. add_text name k (id_text q []))
      ∷ (codes "implementationId", constant (text (codes "Venta Humifier")))
      ∷ (codes "modelUID", constant (text (codes "Venta Humifier")))
      ∷ (codes "modelGuid", constant (text (codes "Venta Humifier")))
      ∷ (
        codes "name",
        λ name k. add_text name k (joined_in 256 (codes "Venta Humifier ") g.humifier.name),
      )
      ∷ (codes "model", λ name k. add_text name k (service_name q))
      ∷ (codes "capabilities", λ name k. grouped q name (λ k'. some (capabilities, k')) k)
      ∷ (codes "zoneID", constant (uint (to_uint g.default_zone_id)))
      ∷ []

  -- One round of the loop, for a property with a name.
  unfoldable pub connector_answer : Bytes → ℕ → Built
  unfolding run_case connector_cases
  connector_answer name k = run_case connector_cases name k

  -- The loop: a property without a name ends it.
  unfoldable pub connector_answers : List PropertyName → ℕ → Option Answer
  unfolding connector_answer
  connector_answers [] k = some []
  connector_answers (name_error ∷ names) k = some []
  connector_answers (wildcard ∷ names) k = some []
  connector_answers (named name ∷ names) k = do
    (entries, k') ← connector_answer name k
    rest ← connector_answers names k'
    some (entries ++ rest)
