-- ===== src/Vdc/GetProp/Returns.antt =====
-- The callback returns, on every path with one response or none, and changes nothing.
use dss_vdc_venta.CString.Decimal.{All-append}
use dss_vdc_venta.Prelude.{
  ℕ, ◌+◌, ◌≤◌, ◌≡◌, refl, Bool, true, false, Option, some, List, [], ◌∷◌, ◌++◌, All, length,
  length-append, arith, Bool-cases, inl, inr,
}
use dss_vdc_venta.CString.{Bytes, codes, strcmp_eq, print_int}
use dss_vdc_venta.Types.{VentaHumifier, SensorValue}
use dss_vdc_venta.Main.Reports.{AllActive}
use dss_vdc_venta.Vdc.SetProp.{PropertyName, name_error, wildcard, named}
use dss_vdc_venta.Vdc.GetProp.Reply.{
  Fields, Leaf, Reply, Query, Built, add_text, grouped, joined_in, run_case, constant, Case,
}
use dss_vdc_venta.Vdc.GetProp.Sensors.{
  sensor_loop, each, description_fields, settings_fields, state_fields, asked_index, is_asked,
  sensor_descriptions, sensor_settings, sensor_states,
}
use dss_vdc_venta.Vdc.GetProp.Indices.{AllNamed}
use dss_vdc_venta.Vdc.GetProp.Device.{
  actions, output_description, DynamicAction, add_actions, add_output_settings, add_model_features,
  device_cases, device_answer, device_answers, reply_cases, text_cases,
}

abbrev pub Defined {ℓ} : {A : Type ℓ} → Option A → Type ℓ
Defined {A = A} o = (a : A) × (o ≡ some a)

-- Whatever was made before, the branch meets no undefined behaviour.
abbrev pub IsTotal : (Bytes → ℕ → Built) → Type 0
IsTotal build = (name : Bytes) (k : ℕ) → Defined (build name k)

infixr 20 ◌&◌
abbrev pub ◌&◌ {ℓ κ} : {P : Type ℓ} {Q : Type κ} → P → Q → P × Q
p & q = (p, q)

pub grouped-Defined :
    (q : Query) (name : Bytes) (fill : ℕ → Option (Reply × ℕ)) (k : ℕ)
    → ((j : ℕ) → Defined (fill j))
    → Defined (grouped q name fill k)
unfolding grouped
grouped-Defined q name fill k h = elim (Bool-cases (q.new_ok k)) [
  | inl made ↦ let (a, filled) = h (k + 1) in rw (made, filled, grouped) (_, refl)
  | inr failed ↦ rw (failed, grouped) (_, refl)
]

pub run_case-Defined :
    (cases : List Case) → All (λ (c : Case). IsTotal c.1) cases → IsTotal (run_case cases)
unfolding run_case
run_case-Defined [] t name k = (_, refl)
run_case-Defined ((key, build) ∷ cases) t name k = elim (Bool-cases (strcmp_eq name key)) [
  | inl this ↦ rw (this, run_case) (t.0 name k)
  | inr other ↦ rw (other, run_case) (run_case-Defined cases t.1 name k)
]

pub constant-Defined : (value : Leaf) → IsTotal (constant value)
constant-Defined value name k = (_, refl)

pub add_text-Defined :
    (name : Bytes) (k : ℕ) (s : Option Bytes) → Defined s → Defined (add_text name k s)
add_text-Defined name k s (a, there) = rw there (_, refl)

pub joined_in-Defined :
    (size : ℕ) (start s : Bytes)
    → length start + length s + 1 ≤ size
    → joined_in size start (some s) ≡ some (start ++ s)
unfolding joined_in
joined_in-Defined size start s h = ground (arith, length-append start s)

add_actions-Defined :
    (q : Query) (as_list : List DynamicAction) (k : ℕ) → Defined (add_actions q as_list k)
unfolding add_actions
add_actions-Defined q [] k = (_, refl)
add_actions-Defined q (a ∷ more) k =
    let (r, made) = add_actions-Defined q more (k + 1) in rw (made, add_actions) (_, refl)

module _ (new_ok wanted : ℕ → Bool) (fields_of : SensorValue → Option Fields) (v : SensorValue)
    (rest : List SensorValue) (inactive : v.is_active ≡ false) where
  sensor_loop-Defined :
      (k i : ℕ) (active : List SensorValue)
      → AllActive active
      → All (λ w. Defined (fields_of w)) active
      → Defined (sensor_loop new_ok wanted fields_of k i (active ++ v ∷ rest))
  unfolding sensor_loop
  sensor_loop-Defined k i [] a f = rw (inactive, sensor_loop) (_, refl)
  sensor_loop-Defined k i (w ∷ active) a f = elim (Bool-cases (wanted i)) [
    | inr other ↦
        let (r, there) = sensor_loop-Defined k (i + 1) active a.1 f.1 in
        rw (a.0, other, sensor_loop) (r, there)
    | inl asked ↦
        let (fields, known) = f.0 in
        elim (Bool-cases (new_ok k)) [
          | inr failed ↦ rw (a.0, asked, known, failed, sensor_loop) (_, refl)
          | inl made ↦
              let (r, there) = sensor_loop-Defined (k + 1) (i + 1) active a.1 f.1 in
              rw (a.0, asked, known, made, there, sensor_loop) (_, refl)
        ]
  ]

-- What the callback relies on: the settings are there and short enough for the buffers, an inactive
-- slot ends the row of active sensors, each of those has a name, the query's first element is no
-- wildcard, and properties can be made.
pub record IsReadable (q : Query) (h : VentaHumifier) : Type 0 where
  pub id : Bytes
  pub has_id : h.id ≡ some id
  pub short_id : length id ≤ 240
  pub name : Bytes
  pub has_name : h.name ≡ some name
  pub short_name : length name ≤ 240
  pub short_host : length q.hostname ≤ 63
  pub short_number : length (print_int q.id_as_int) ≤ 11
  pub active : List SensorValue
  pub last : SensorValue
  pub rest : List SensorValue
  pub slots : h.sensor_values ≡ active ++ last ∷ rest
  pub all_active : AllActive active
  pub inactive : last.is_active ≡ false
  pub all_named : AllNamed active
  pub index : Defined (asked_index q.first_element)
  pub makes : (k : ℕ) → q.new_ok k ≡ true

total_fields :
    (fields_of : SensorValue → Option Fields)
    → ((v : SensorValue) → Defined (fields_of v))
    → (active : List SensorValue) → All (λ w. Defined (fields_of w)) active
total_fields fields_of f [] = tt
total_fields fields_of f (v ∷ active) = (f v, total_fields fields_of f active)

described_fields :
    (name : Bytes) (active : List SensorValue)
    → AllNamed active
    → All (λ w. Defined (description_fields (some name) w)) active
unfolding description_fields
described_fields name [] n = tt
described_fields name (v ∷ active) n =
    let there = (n.0).1 in (rw there (_, refl), described_fields name active n.1)

module _ (q : Query) (h : VentaHumifier) (r : IsReadable q h) where
  loop-Defined :
      (wanted : ℕ → Bool) (fields_of : SensorValue → Option Fields) (k : ℕ)
      → All (λ w. Defined (fields_of w)) r.active
      → Defined (sensor_loop q.new_ok wanted fields_of k 0 h.sensor_values)
  loop-Defined wanted fields_of k f =
      let slots = r.slots in
      rw slots (
        sensor_loop-Defined q.new_ok wanted fields_of r.last r.rest r.inactive k 0 r.active
          r.all_active f)

  descriptions-Defined : (k : ℕ) → Defined (sensor_descriptions q h.name h.sensor_values k)
  unfolding sensor_descriptions
  descriptions-Defined k =
      let named = r.has_name in
      rw named (
        loop-Defined each (description_fields (some r.name)) k
          (described_fields r.name r.active r.all_named))

  settings-Defined : (k : ℕ) → Defined (sensor_settings q h.sensor_values k)
  unfolding sensor_settings
  settings-Defined k =
      loop-Defined each settings_fields k (total_fields settings_fields (λ v. (_, refl)) r.active)

  states-Defined : (k : ℕ) → Defined (sensor_states q h.sensor_values k)
  unfolding sensor_states
  states-Defined k =
      let (idx, asked) = r.index in
      rw asked (
        loop-Defined (is_asked idx) (state_fields (q.now k)) k
          (total_fields (state_fields (q.now k)) (λ v. (_, refl)) r.active))

  features-Defined : IsTotal (add_model_features q)
  unfolding add_model_features
  features-Defined name k = let made = r.makes k in rw (made, add_model_features) (_, refl)

  output_settings-Defined : IsTotal (add_output_settings q)
  unfolding add_output_settings
  output_settings-Defined name k =
      let made = r.makes k in
      let made' = r.makes (k + 1) in rw (made, made', add_output_settings) (_, refl)

  vendor-Defined : IsTotal (λ name k. add_text name k (joined_in 256 (codes "Venta vDC ") h.id))
  vendor-Defined name k =
      let there = r.has_id in
      let short = r.short_id in
      rw (there, joined_in-Defined 256 (codes "Venta vDC ") r.id (omega (arith, short))) (_, refl)

  reply_cases-Defined : All (λ (c : Case). IsTotal c.1) (reply_cases q h)
  unfolding reply_cases
  reply_cases-Defined =
      constant-Defined _
      & constant-Defined _
      & (λ name k. grouped-Defined q name (add_actions q actions) k (add_actions-Defined q actions))
      & (λ name k. grouped-Defined q name (λ j. some (output_description, j)) k (λ j. (_, refl)))
      & output_settings-Defined
      & (λ name k.
          grouped-Defined q name (sensor_descriptions q h.name h.sensor_values) k
            descriptions-Defined)
      & (λ name k. grouped-Defined q name (sensor_settings q h.sensor_values) k settings-Defined)
      & (λ name k. grouped-Defined q name (sensor_states q h.sensor_values) k states-Defined)
      & tt

  text_cases-Defined : All (λ (c : Case). IsTotal c.1) (text_cases q h)
  unfolding text_cases
  text_cases-Defined =
      constant-Defined _
      & constant-Defined _
      & constant-Defined _
      & features-Defined
      & constant-Defined _
      & constant-Defined _
      & constant-Defined _
      & constant-Defined _
      & vendor-Defined
      & constant-Defined _
      & constant-Defined _
      & constant-Defined _
      & constant-Defined _
      & constant-Defined _
      & constant-Defined _
      & tt

  cases-Defined : All (λ (c : Case). IsTotal c.1) (device_cases q h)
  unfolding device_cases
  cases-Defined =
      All-append (λ (c : Case). IsTotal c.1) (reply_cases q h) (text_cases q h) reply_cases-Defined
        text_cases-Defined

  device_answer-Defined : IsTotal (device_answer q h)
  unfolding device_answer
  device_answer-Defined = run_case-Defined (device_cases q h) cases-Defined

  pub device_answers-Defined :
      (names : List PropertyName) (k : ℕ) → Defined (device_answers q h names k)
  unfolding device_answers
  device_answers-Defined [] k = (_, refl)
  device_answers-Defined (name_error ∷ names) k = (_, refl)
  device_answers-Defined (wildcard ∷ names) k = device_answers-Defined names k
  device_answers-Defined (named name ∷ names) k =
      let ((entries, k'), here) = device_answer-Defined name k in
      let (rest, there) = device_answers-Defined names k' in
      rw (here, there, device_answers) (_, refl)
