-- ===== src/Vdc/GetProp/Indices.antt =====
-- Under which indices the sensors are described, set and read.
use dss_vdc_venta.Prelude.{
  ℕ, suc, ◌+◌, ◌<◌, ◌^◌, Bool, true, false, Option, none, some, List, [], ◌∷◌, ◌++◌, ℤ, pos, ◌≡◌,
  refl, arith, All, length, get_elem?, if◌then◌else◌, Bool-cases, inl, inr, ap, negsuc, zero, ◌-ℤ◌,
  take,
}
use dss_vdc_venta.CString.{Bytes, codes, digits}
use dss_vdc_venta.CString.Strtol.Decimal.{strtol_int-digits}
use dss_vdc_venta.Types.{SensorValue}
use dss_vdc_venta.Main.Push.{Report, pushed, push_sensor_data}
use dss_vdc_venta.Main.Reports.{AllActive, reports_of, slots_after, push_sensor_data_reports}
use dss_vdc_venta.Vdc.SetProp.{name_error, named}
use dss_vdc_venta.Vdc.GetProp.Reply.{group, text, to_uint, uint, int, double, Fields, Reply, Query}
use dss_vdc_venta.Vdc.GetProp.Sensors.{
  sensor_name, sensor_loop, each, settings_fields, description_fields, state_fields, is_asked,
  asked_index, sensor_descriptions, sensor_settings, sensor_states,
}

-- The entries of a row of active sensors, by the slots' indices.
abbrev pub entries_of : (ℕ → Bool) → (SensorValue → Fields) → ℕ → List SensorValue → Reply
entries_of wanted fields i [] = []
entries_of wanted fields i (v ∷ values) =
    let rest = entries_of wanted fields (i + 1) values in
    if wanted i then (digits i, group (fields v)) ∷ rest else rest

-- The sensors have these fields.
abbrev pub HasFields :
    (SensorValue → Option Fields) → (SensorValue → Fields) → List SensorValue → Type 0
HasFields fields_of fields active = All (λ v. fields_of v ≡ some (fields v)) active

module _ (new_ok : ℕ → Bool) (makes : (k : ℕ) → new_ok k ≡ true) (wanted : ℕ → Bool)
    (fields_of : SensorValue → Option Fields) (fields : SensorValue → Fields) (v : SensorValue)
    (rest : List SensorValue) (inactive : v.is_active ≡ false) where
  pub sensor_loop-entries :
      (k i : ℕ) (active : List SensorValue)
      → AllActive active
      → HasFields fields_of fields active
      → sensor_loop new_ok wanted fields_of k i (active ++ v ∷ rest)
        ≡ some (entries_of wanted fields i active, k + length (entries_of wanted fields i active))
  unfolding sensor_loop
  sensor_loop-entries k i [] a f = rw (inactive, sensor_loop) (ground arith)
  sensor_loop-entries k i (w ∷ active) a f = elim (Bool-cases (wanted i)) [
    | inr other ↦ rw (a.0, other, sensor_loop) (sensor_loop-entries k (i + 1) active a.1 f.1)
    | inl asked ↦
        rw
          (
            a.0,
            asked,
            f.0,
            makes k,
            sensor_loop-entries (k + 1) (i + 1) active a.1 f.1,
            sensor_loop,
          )
          (ground arith)
  ]

abbrev pub keys : Reply → List Bytes
keys [] = []
keys ((key, node) ∷ reply) = key ∷ keys reply

abbrev pub report_keys : List Report → List Bytes
report_keys [] = []
report_keys (r ∷ reports) = digits r.index ∷ report_keys reports

keys-entries_of :
    (wanted : ℕ → Bool) (fields : SensorValue → Fields) (now : ℕ → ℤ) (i : ℕ)
    (active : List SensorValue)
    → ((j : ℕ) → wanted j ≡ true)
    → keys (entries_of wanted fields i active) ≡ report_keys (reports_of now i active)
keys-entries_of wanted fields now i [] all = refl
keys-entries_of wanted fields now i (v ∷ active) all =
    rw (all i) (ap (λ ks. digits i ∷ ks) (keys-entries_of wanted fields now (i + 1) active all))

-- The two names of each sensor are there.
abbrev pub AllNamed : List SensorValue → Type 0
AllNamed values = All (λ v. (name : Bytes) × (v.value_name ≡ some name)) values

abbrev pub text_or_empty : Option Bytes → Bytes
text_or_empty none = []
text_or_empty (some s) = s

-- The description of a sensor: the humifier's name, a dash and the sensor's name, cut to 63 bytes.
abbrev pub described : Bytes → SensorValue → Fields
described name v =
    (codes "name", text (take 63 (name ++ b'-' ∷ text_or_empty v.value_name)))
    ∷ (codes "sensorType", uint (to_uint v.sensor_type))
    ∷ (codes "sensorUsage", uint (to_uint v.sensor_usage))
    ∷ (codes "aliveSignInterval", double (pos 300))
    ∷ []

described-HasFields :
    (name : Bytes) (active : List SensorValue)
    → AllNamed active
    → HasFields (description_fields (some name)) (described name) active
unfolding description_fields sensor_name
described-HasFields name [] h = tt
described-HasFields name (v ∷ active) h =
    let there = (h.0).1 in (rw there refl, described-HasFields name active h.1)

total-HasFields :
    (fields_of : SensorValue → Option Fields) (fields : SensorValue → Fields)
    → ((v : SensorValue) → fields_of v ≡ some (fields v))
    → (active : List SensorValue) → HasFields fields_of fields active
total-HasFields fields_of fields h [] = tt
total-HasFields fields_of fields h (v ∷ active) = (h v, total-HasFields fields_of fields h active)

abbrev pub settings_of : SensorValue → Fields
settings_of v =
    (codes "group", uint 8)
    ∷ (codes "minPushInterval", uint 5)
    ∷ (codes "changesOnlyInterval", double (pos 5))
    ∷ []

abbrev pub state_of : ℤ → SensorValue → Fields
state_of now v =
    (codes "value", double v.value)
    ∷ (codes "age", int (now -ℤ v.last_query))
    ∷ (codes "error", int (pos 0))
    ∷ []

-- A reply with the fields of each active sensor under its index, and with an entry for each report,
-- under its index and in its order.
abbrev pub Lists :
    Option (Reply × ℕ) → (SensorValue → Fields) → List SensorValue → List Report → Type 0
Lists made fields active reports =
    (reply : Reply) × (k : ℕ) × (made ≡ some (reply, k))
    × (reply ≡ entries_of each fields 0 active)
    × (keys reply ≡ report_keys reports)

entries_of-all :
    (wanted : ℕ → Bool) (fields : SensorValue → Fields) (i : ℕ) (active : List SensorValue)
    → ((j : ℕ) → wanted j ≡ true)
    → entries_of wanted fields i active ≡ entries_of each fields i active
entries_of-all wanted fields i [] all = refl
entries_of-all wanted fields i (v ∷ active) all = rw (all i) (
    ap (λ rest. (digits i, group (fields v)) ∷ rest)
      (entries_of-all wanted fields (i + 1) active all))

-- What a query for the states of one sensor gets.
abbrev pub entry_of : ℤ → ℕ → Option SensorValue → Reply
entry_of now n none = []
entry_of now n (some v) = (digits n, group (state_of now v)) ∷ []

is_asked_all : (i : ℕ) → is_asked (negsuc 0) i ≡ true
is_asked_all i = ground arith

nothing_asked :
    (n i : ℕ) (now : ℤ) (active : List SensorValue)
    → n < i
    → entries_of (is_asked (pos n)) (state_of now) i active ≡ []
nothing_asked n i now [] h = refl
nothing_asked n i now (v ∷ active) h =
    let other : is_asked (pos n) i ≡ false = ground arith in
    rw other (nothing_asked n (i + 1) now active (omega arith))

one_asked :
    (m i j : ℕ) (now : ℤ) (active : List SensorValue)
    → j ≡ i + m
    → entries_of (is_asked (pos j)) (state_of now) i active ≡ entry_of now j (get_elem? active m)
one_asked m i j now [] e = refl
one_asked zero i j now (v ∷ active) e =
    let same : i ≡ j = omega (arith, e) in
    let this : is_asked (pos j) i ≡ true = ground arith in
    rw (this, nothing_asked j (i + 1) now active (omega arith), same) refl
one_asked (suc m) i j now (v ∷ active) e =
    let other : is_asked (pos j) i ≡ false = ground arith in
    rw other (one_asked m (i + 1) j now active (omega (arith, e)))

module _ (q : Query) (makes : (k : ℕ) → q.new_ok k ≡ true) (active : List SensorValue)
    (v : SensorValue) (rest : List SensorValue) (all_active : AllActive active)
    (inactive : v.is_active ≡ false) where
  -- Where every property can be made and an inactive slot ends the row of active ones, the
  -- descriptions, the settings, the states (where no index is asked for) and the pushed values list
  -- the same sensors under the same indices in the same order. Under each index stands the name of
  -- the humifier with that of the sensor, its type and usage; the group and the intervals; and its
  -- value, its age and no error.
  pub sensor_indices_agree :
      (name : Bytes) (k fuel : ℕ) (now : ℕ → ℤ)
      → AllNamed active
      → q.first_element ≡ name_error
      → length active < fuel
      → let values = active ++ v ∷ rest in
        (slots : List SensorValue) × (reports : List Report) × (push_sensor_data fuel
            (λ j. true)
            now
            values
          ≡ pushed slots reports)
        × Lists (sensor_descriptions q (some name) values k) (described name) active reports
        × Lists (sensor_settings q values k) settings_of active reports
        × Lists (sensor_states q values k) (state_of (q.now k)) active reports
  unfolding sensor_descriptions sensor_settings sensor_states asked_index
  sensor_indices_agree name k fuel now names no_index enough =
      let settings_there = total-HasFields settings_fields settings_of (λ w. refl) active in
      let states_there =
        total-HasFields (state_fields (q.now k)) (state_of (q.now k)) (λ w. refl) active in
      (
        slots_after now 0 active ++ v ∷ rest,
        reports_of now 0 active,
        push_sensor_data_reports fuel now active v rest enough all_active inactive,
        (
          entries_of each (described name) 0 active,
          k + length (entries_of each (described name) 0 active),
          sensor_loop-entries q.new_ok makes each (description_fields (some name)) (described name)
              v rest inactive k 0 active all_active (described-HasFields name active names),
          refl,
          keys-entries_of each (described name) now 0 active (λ j. refl),
        ),
        (
          entries_of each settings_of 0 active,
          k + length (entries_of each settings_of 0 active),
          sensor_loop-entries q.new_ok makes each settings_fields settings_of v rest inactive k 0
              active all_active settings_there,
          refl,
          keys-entries_of each settings_of now 0 active (λ j. refl),
        ),
        (
          entries_of (is_asked (negsuc 0)) (state_of (q.now k)) 0 active,
          k + length (entries_of (is_asked (negsuc 0)) (state_of (q.now k)) 0 active),
          rw no_index (
              sensor_loop-entries q.new_ok makes (is_asked (negsuc 0)) (state_fields (q.now k))
                (state_of (q.now k)) v rest inactive k 0 active all_active states_there),
          entries_of-all (is_asked (negsuc 0)) (state_of (q.now k)) 0 active is_asked_all,
          keys-entries_of (is_asked (negsuc 0)) (state_of (q.now k)) now 0 active is_asked_all,
        ),
      )

  -- Where every property can be made and an inactive slot ends the row of active ones, a query for
  -- the states whose first element is a printed number below 2^31 gets the state of the active sensor
  -- with that index alone, and nothing where there is none.
  pub sensor_states_one :
      (n k : ℕ)
      → n < 2 ^ 31
      → q.first_element ≡ named (digits n)
      → (k' : ℕ) × (sensor_states q (active ++ v ∷ rest) k
          ≡ some (entry_of (q.now k) n (get_elem? active n), k'))
  unfolding sensor_states asked_index
  sensor_states_one n k small asked =
      let states_there =
        total-HasFields (state_fields (q.now k)) (state_of (q.now k)) (λ w. refl) active in
      let one = one_asked n 0 n (q.now k) active (omega arith) in
      (
        k + length (entries_of (is_asked (pos n)) (state_of (q.now k)) 0 active),
        rw (asked, strtol_int-digits n small, ← one)
            (sensor_loop-entries q.new_ok makes (is_asked (pos n)) (state_fields (q.now k))
              (state_of (q.now k)) v rest inactive k 0 active all_active states_there),
      )
