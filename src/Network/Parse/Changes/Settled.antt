-- ===== src/Network/Parse/Changes/Settled.antt =====
-- The same answer again and again: from the third time on it is no change.
use dss_vdc_venta.Prelude.{
  ℤ, ℕ, Option, ◌≡◌, ◌≢◌, List, Bool, ◌∷◌, false, true, get_elem?, none, some, [], refl, zero, suc,
  sym, ◌∙◌, ap, pos, All, ◌||◌, subst, if◌then◌else◌, arith,
}
use dss_vdc_venta.Network.Json.{JsonC}
use dss_vdc_venta.Network.Parse.{
  store_value, is_change, store_reading, update_sensors, device_entry, device_entries,
}
use dss_vdc_venta.Network.Parse.Changes.{
  readings_for, reading_of, add_reading, apply_readings, at_slot, same_slot, at_slot_id,
  device_entry-slot, device_entries-slot, readings_for-device_entry,
}
use dss_vdc_venta.Types.{SensorValue, Globals, VentaHumifier}
use dss_vdc_venta.Sensors.{find_sensor_value_by_name}
use dss_vdc_venta.CString.{Bytes}

-- A slot that was reported before, after so many answers with this reading for it.
abbrev pub Level : ℕ → ℤ → SensorValue → Type 0
Level zero x v = v.last_reported ≢ pos 0
Level (suc zero) x v = (v.last_reported ≢ pos 0) × (v.value ≡ x)
Level (suc (suc n)) x v = (v.last_reported ≢ pos 0) × (v.value ≡ x) × (v.last_value ≡ x)

Level-store_value :
    (n : ℕ) (now x : ℤ) (v : SensorValue) → Level n x v → Level (suc n) x (store_value now x v)
Level-store_value zero now x v reported = (reported, refl)
Level-store_value (suc zero) now x v (reported, stored) = (reported, refl, stored)
Level-store_value (suc (suc n)) now x v (reported, stored, last) = (reported, refl, stored)

Level-suc : (n : ℕ) (x : ℤ) (v : SensorValue) → Level (suc n) x v → Level n x v
Level-suc zero x v (reported, stored) = reported
Level-suc (suc zero) x v (reported, stored, last) = (reported, stored)
Level-suc (suc (suc n)) x v l = l

is_change-Level : (x : ℤ) (v : SensorValue) → Level 2 x v → is_change x v ≡ false
is_change-Level x v (reported, stored, last) = ground arith

-- A stored reading leaves the slot as it was for every reading that it held.
AllLevel-store_value :
    (now x : ℤ) (v : SensorValue) (xs : List ℤ)
    → Level 2 x v
    → All (λ y. Level 2 y v) xs
    → All (λ y. Level 2 y (store_value now x v)) xs
AllLevel-store_value now x v [] l all = tt
AllLevel-store_value now x v (y ∷ xs) (told, held, before) ((reported, stored, last), all) = (
  (reported, sym held ∙ stored, stored),
  AllLevel-store_value now x v xs (told, held, before) all,
)

-- The slots with a reading have had it so many times.
abbrev pub Holds : ℕ → (ℕ → Option ℤ) → VentaHumifier → Type 0
Holds n reads h =
    (i : ℕ) (v : SensorValue) (x : ℤ)
    → get_elem? h.sensor_values i ≡ some v
    → reads i ≡ some x
    → Level n x v

pub Holds-suc :
    (n : ℕ) (reads : ℕ → Option ℤ) (h : VentaHumifier) → Holds (suc n) reads h → Holds n reads h
Holds-suc n reads h held i v x there r = Level-suc n x v (held i v x there r)

module _ (json : JsonC) where
  open json use {Json}

  -- Each slot has at most this one reading in an answer.
  abbrev pub Reads : (ℕ → Option ℤ) → List (Bytes × Json) → VentaHumifier → Type 0
  Reads reads es h = (i : ℕ) → readings_for json h i es ≡ add_reading (reads i) []

  pub readings_for-device_entries :
      (now : ℤ) (es' : List (Bytes × Json)) (g : Globals) (i : ℕ) (es : List (Bytes × Json))
      → readings_for json (device_entries json now es' g).0.humifier i es
        ≡ readings_for json g.humifier i es
  unfolding device_entries
  readings_for-device_entries now [] g i es = refl
  readings_for-device_entries now ((key, value) ∷ es') g i es =
      readings_for-device_entries now es' (device_entry json now key value g).0 i es
      ∙ readings_for-device_entry json now key value g i es

  slot_after :
      (n : ℕ) (now x : ℤ) (old new : Option SensorValue) (v' : SensorValue)
      → new ≡ at_slot (apply_readings now (x ∷ [])) old
      → new ≡ some v'
      → ((v : SensorValue) → old ≡ some v → Level n x v)
      → Level (suc n) x v'
  slot_after n now x none new v' after got level = absurd (cc (after, got))
  slot_after n now x (some v) new v' after got level =
      let same : store_value now x v ≡ v' = cc (after, got) in
      subst (Level (suc n) x) same (Level-store_value n now x v (level v refl))

  pub device_entries-Holds :
      (n : ℕ) (now : ℤ) (reads : ℕ → Option ℤ) (es : List (Bytes × Json)) (g : Globals)
      → Reads reads es g.humifier
      → Holds n reads g.humifier
      → Holds (suc n) reads (device_entries json now es g).0.humifier
  device_entries-Holds n now reads es g named h i v' x got r =
      slot_after n now x (get_elem? g.humifier.sensor_values i) _ v'
        (device_entries-slot json now es g i
          ∙ ap (λ rs. at_slot (apply_readings now rs) (get_elem? g.humifier.sensor_values i))
              (named i ∙ ap (λ o. add_reading o []) r))
        got (λ v there. h i v x there r)

  -- Every reading of the answer is the one that its slot holds twice.
  abbrev AllHeld : List (Bytes × Json) → Globals → Type 0
  AllHeld es g =
      (i : ℕ) (v : SensorValue)
      → get_elem? g.humifier.sensor_values i ≡ some v
      → All (λ x. Level 2 x v) (readings_for json g.humifier i es)

  held_after :
      (now : ℤ) (r : Option ℤ) (here : Bool) (old : Option SensorValue) (v' : SensorValue)
      (rs : List ℤ)
      → at_slot (apply_readings now (if here then add_reading r [] else [])) old ≡ some v'
      → ((v : SensorValue)
          → old ≡ some v
          → All (λ x. Level 2 x v) (if here then add_reading r rs else rs))
      → All (λ x. Level 2 x v') rs
  held_after now r here none v' rs got held = absurd (cc got)
  held_after now r false (some v) v' rs got held =
      let same : v ≡ v' = cc got in subst (λ w. All (λ x. Level 2 x w) rs) same (held v refl)
  held_after now none true (some v) v' rs got held =
      let same : v ≡ v' = cc got in subst (λ w. All (λ x. Level 2 x w) rs) same (held v refl)
  held_after now (some x) true (some v) v' rs got held =
      let same : store_value now x v ≡ v' = cc got in
      let (first, rest) = held v refl in
      subst (λ w. All (λ y. Level 2 y w) rs) same (AllLevel-store_value now x v rs first rest)

  same_slot-suc : (j i : ℕ) → same_slot (suc j) (some (suc i)) ≡ same_slot j (some i)
  same_slot-suc j i = ground arith

  update_sensors-quiet :
      (now : ℤ) (r : Option ℤ) (at : Option ℕ) (values : List SensorValue) (rs : ℕ → List ℤ)
      → ((i : ℕ) (v : SensorValue)
          → get_elem? values i ≡ some v
          → All (λ x. Level 2 x v) (if same_slot i at then add_reading r (rs i) else rs i))
      → (update_sensors now r at values).1 ≡ false
  unfolding update_sensors store_reading
  update_sensors-quiet now r none values rs held = refl
  update_sensors-quiet now r (some i) [] rs held = refl
  update_sensors-quiet now none (some zero) (v ∷ values) rs held = refl
  update_sensors-quiet now (some x) (some zero) (v ∷ values) rs held =
      is_change-Level x v ((held 0 v refl).0)
  update_sensors-quiet now r (some (suc i)) (v ∷ values) rs held =
      update_sensors-quiet now r (some i) values (λ j. rs (suc j))
        (λ j w there.
          subst (λ b. All (λ x. Level 2 x w) (if b then add_reading r (rs (suc j)) else rs (suc j)))
            (same_slot-suc j i) (held (suc j) w there))

  device_entries-quiet :
      (now : ℤ) (es : List (Bytes × Json)) (g : Globals)
      → AllHeld es g
      → (device_entries json now es g).1 ≡ false
  unfolding device_entries device_entry
  device_entries-quiet now [] g held = refl
  device_entries-quiet now ((key, value) ∷ es) g held =
      let at = find_sensor_value_by_name key g.humifier in
      let r = reading_of json value in
      let g' = (device_entry json now key value g).0 in
      let slots = g.humifier.sensor_values in
      let first : (update_sensors now r at slots).1 ≡ false =
        update_sensors-quiet now r at slots (λ i. readings_for json g.humifier i es) held in
      let later : (device_entries json now es g').1 ≡ false =
        device_entries-quiet now es g' (λ i v' got.
          subst (All (λ x. Level 2 x v'))
            (sym (readings_for-device_entry json now key value g i es))
            (held_after now r (same_slot i at) (get_elem? slots i) v'
              (readings_for json g.humifier i es)
              (sym (device_entry-slot json now key value g i [])
                ∙ at_slot_id (get_elem? g'.humifier.sensor_values i)
                ∙ got)
              (held i))) in
      ap (λ (b : Bool). b || (device_entries json now es g').1) first ∙ later

  AllHeld-Holds :
      (reads : ℕ → Option ℤ) (es : List (Bytes × Json)) (g : Globals)
      → Reads reads es g.humifier
      → Holds 2 reads g.humifier
      → AllHeld es g
  AllHeld-Holds reads es g named h i v there =
      subst (All (λ x. Level 2 x v)) (sym (named i)) (one (reads i) refl)
    where
      one : (o : Option ℤ) → reads i ≡ o → All (λ x. Level 2 x v) (add_reading o [])
      one none r = tt
      one (some x) r = (h i v x there r, tt)

  -- An answer whose readings the slots hold twice is no change.
  pub device_entries_quiet :
      (now : ℤ) (reads : ℕ → Option ℤ) (es : List (Bytes × Json)) (g : Globals)
      → Reads reads es g.humifier
      → Holds 2 reads g.humifier
      → (device_entries json now es g).1 ≡ false
  device_entries_quiet now reads es g named h =
      device_entries-quiet now es g (AllHeld-Holds reads es g named h)
