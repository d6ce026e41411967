-- ===== src/Network/Parse/Changes.antt =====
-- Which sensor slots a device object updates, and when new values are reported.
pub mod Settled
use dss_vdc_venta.Prelude.{
  ℤ, ℕ, Option, ◌≡◌, List, Bool, ◌∷◌, false, get_elem?, none, [], ◌==◌, if◌then◌else◌, refl, arith,
  ◌+◌, zero, sym, ◌∙◌, ap, fun_ext, true, ◌≢◌, pos, not, ◌==ℤ◌, ==ℤ_iff,
}
use dss_vdc_venta.Network.Json.{JsonC}
use dss_vdc_venta.Network.Parse.{
  store_value, is_change, reading, store_reading, update_sensors, device_entry, device_entries, ℤ,
  ℕ, List, some, suc,
}
use dss_vdc_venta.Types.{SensorValue, VentaHumifier, Globals}
use dss_vdc_venta.Sensors.{find_from, find_sensor_value_by_name}
use dss_vdc_venta.CString.{Bytes}

name-store_reading :
    (now : ℤ) (r : Option ℤ) (v : SensorValue) → (store_reading now r v).0.value_name ≡ v.value_name
unfolding store_reading
name-store_reading now none v = refl
name-store_reading now (some value) v = refl

find_from-update_sensors :
    (key : Bytes) (j : ℕ) (now : ℤ) (r : Option ℤ) (at : Option ℕ) (values : List SensorValue)
    → find_from key j (update_sensors now r at values).0 ≡ find_from key j values
unfolding find_from update_sensors
find_from-update_sensors key j now r none values = refl
find_from-update_sensors key j now r (some i) [] = refl
find_from-update_sensors key j now r (some zero) (v ∷ values) = rw name-store_reading refl
find_from-update_sensors key j now r (some (suc i)) (v ∷ values) =
    ground (arith, find_from-update_sensors key (j + 1) now r (some i) values)

-- The readings for one slot, in the order in which they are stored there.
abbrev pub apply_readings : ℤ → List ℤ → SensorValue → SensorValue
apply_readings now [] v = v
apply_readings now (r ∷ rs) v = apply_readings now rs (store_value now r v)

abbrev pub add_reading : Option ℤ → List ℤ → List ℤ
add_reading none rs = rs
add_reading (some r) rs = r ∷ rs

abbrev pub same_slot : ℕ → Option ℕ → Bool
same_slot i none = false
same_slot i (some j) = i == j

-- A change to the slot, if it is there.
abbrev pub at_slot : (SensorValue → SensorValue) → Option SensorValue → Option SensorValue
at_slot f none = none
at_slot f (some v) = some (f v)

at_slot_id : (o : Option SensorValue) → at_slot (λ v. v) o ≡ o
at_slot_id none = refl
at_slot_id (some v) = refl

at_slot_comp :
    (f h : SensorValue → SensorValue) (o : Option SensorValue)
    → at_slot f (at_slot h o) ≡ at_slot (λ v. f (h v)) o
at_slot_comp f h none = refl
at_slot_comp f h (some v) = refl

abbrev one_reading : Option ℤ → Bool → List ℤ
one_reading r here = if here then add_reading r [] else []

update_sensors-slot :
    (now : ℤ) (r : Option ℤ) (at : Option ℕ) (values : List SensorValue) (i : ℕ)
    → get_elem? (update_sensors now r at values).0 i
      ≡ at_slot (apply_readings now (one_reading r (same_slot i at))) (get_elem? values i)
unfolding update_sensors store_reading
update_sensors-slot now r none values i = sym (at_slot_id (get_elem? values i))
update_sensors-slot now r (some j) [] i = refl
update_sensors-slot now none (some zero) (v ∷ values) zero = refl
update_sensors-slot now (some x) (some zero) (v ∷ values) zero = refl
update_sensors-slot now r (some zero) (v ∷ values) (suc i) =
    ground (arith, at_slot_id (get_elem? values i))
update_sensors-slot now r (some (suc j)) (v ∷ values) zero = ground arith
update_sensors-slot now r (some (suc j)) (v ∷ values) (suc i) =
    ground (arith, update_sensors-slot now r (some j) values i)

apply_readings-add :
    (now : ℤ) (r : Option ℤ) (here : Bool) (rs : List ℤ) (v : SensorValue)
    → apply_readings now rs (apply_readings now (one_reading r here) v)
      ≡ apply_readings now (if here then add_reading r rs else rs) v
apply_readings-add now none true rs v = refl
apply_readings-add now (some x) true rs v = refl
apply_readings-add now r false rs v = refl

update_sensors-flag :
    (now x : ℤ) (i : ℕ) (values : List SensorValue) (v : SensorValue)
    → get_elem? values i ≡ some v
    → (update_sensors now (some x) (some i) values).1 ≡ is_change x v
unfolding update_sensors store_reading
update_sensors-flag now x i [] v e = cc
update_sensors-flag now x zero (w ∷ values) v e = cc
update_sensors-flag now x (suc i) (w ∷ values) v e = update_sensors-flag now x i values v e

module _ (json : JsonC) where
  open json use {Json, get_type, get_int, get_boolean}

  abbrev pub reading_of : Json → Option ℤ
  reading_of value = reading (get_type value) (get_int value) (get_boolean value)

  -- The readings that the entries hold for the slot at an index.
  abbrev pub readings_for : VentaHumifier → ℕ → List (Bytes × Json) → List ℤ
  readings_for h i [] = []
  readings_for h i ((key, value) ∷ es) =
      if same_slot i (find_sensor_value_by_name key h)
      then add_reading (reading_of value) (readings_for h i es)
      else readings_for h i es

  find-device_entry :
      (k : Bytes) (now : ℤ) (key : Bytes) (value : Json) (g : Globals)
      → find_sensor_value_by_name k (device_entry json now key value g).0.humifier
        ≡ find_sensor_value_by_name k g.humifier
  unfolding device_entry find_sensor_value_by_name
  find-device_entry k now key value g =
      find_from-update_sensors k 0 now (reading_of value) (find_from key 0 g.humifier.sensor_values)
        g.humifier.sensor_values

  find-device_entries :
      (k : Bytes) (now : ℤ) (key : Bytes) (value : Json) (g : Globals)
      → find_sensor_value_by_name k (device_entries json now ((key, value) ∷ []) g).0.humifier
        ≡ find_sensor_value_by_name k g.humifier
  unfolding device_entries
  find-device_entries = find-device_entry

  readings_for-device_entry :
      (now : ℤ) (key : Bytes) (value : Json) (g : Globals) (i : ℕ) (es : List (Bytes × Json))
      → readings_for (device_entry json now key value g).0.humifier i es
        ≡ readings_for g.humifier i es
  readings_for-device_entry now key value g i [] = refl
  readings_for-device_entry now key value g i ((k, v) ∷ es) =
      rw (find-device_entry k now key value g)
        (rw (readings_for-device_entry now key value g i es) refl)

  device_entry-slot :
      (now : ℤ) (key : Bytes) (value : Json) (g : Globals) (i : ℕ) (rs : List ℤ)
      → at_slot
          (apply_readings now rs)
          (get_elem? (device_entry json now key value g).0.humifier.sensor_values i)
        ≡ at_slot
            (apply_readings now (
              if same_slot i (find_sensor_value_by_name key g.humifier)
              then add_reading (reading_of value) rs
              else rs))
            (get_elem? g.humifier.sensor_values i)
  unfolding device_entry
  device_entry-slot now key value g i rs =
      let at = find_sensor_value_by_name key g.humifier in
      let old = get_elem? g.humifier.sensor_values i in
      rw (update_sensors-slot now (reading_of value) at g.humifier.sensor_values i) (
        at_slot_comp (apply_readings now rs)
          (apply_readings now (one_reading (reading_of value) (same_slot i at))) old
        ∙ ap (λ f. at_slot f old)
            (fun_ext (apply_readings-add now (reading_of value) (same_slot i at) rs)))

  -- Each sensor slot is updated by exactly the readings that name it, in their order, whatever the
  -- other entries are; the slot of an entry is the one that its key finds before the first update.
  pub device_entries-slot :
      (now : ℤ) (es : List (Bytes × Json)) (g : Globals) (i : ℕ)
      → get_elem? (device_entries json now es g).0.humifier.sensor_values i
        ≡ at_slot
            (apply_readings now (readings_for g.humifier i es))
            (get_elem? g.humifier.sensor_values i)
  unfolding device_entries
  device_entries-slot now [] g i = sym (at_slot_id (get_elem? g.humifier.sensor_values i))
  device_entries-slot now ((key, value) ∷ es) g i =
      device_entries-slot now es (device_entry json now key value g).0 i
      ∙ rw (readings_for-device_entry now key value g i es)
          (device_entry-slot now key value g i (readings_for g.humifier i es))

  -- What is reported for an entry is the test on the slot before the update.
  device_entry-flag :
      (now : ℤ) (key : Bytes) (value : Json) (g : Globals) (i : ℕ) (x : ℤ) (v : SensorValue)
      → find_sensor_value_by_name key g.humifier ≡ some i
      → reading_of value ≡ some x
      → get_elem? g.humifier.sensor_values i ≡ some v
      → (device_entries json now ((key, value) ∷ []) g).1 ≡ is_change x v
  unfolding device_entries device_entry
  device_entry-flag now key value g i x v f r e =
      simp (f, r) (ground (arith, update_sensors-flag now x i g.humifier.sensor_values v))

  -- The slot after an entry for it.
  device_entry-stored :
      (now : ℤ) (key : Bytes) (value : Json) (g : Globals) (i : ℕ) (x : ℤ) (v : SensorValue)
      → find_sensor_value_by_name key g.humifier ≡ some i
      → reading_of value ≡ some x
      → get_elem? g.humifier.sensor_values i ≡ some v
      → get_elem? (device_entries json now ((key, value) ∷ []) g).0.humifier.sensor_values i
        ≡ some (store_value now x v)
  device_entry-stored now key value g i x v f r e =
      device_entries-slot now ((key, value) ∷ []) g i ∙ simp (f, r, e) (ground arith)

  -- Three answers in turn each have one entry for one sensor, with readings x, y and z, and the
  -- sensor was reported before: the third is signalled exactly if z differs from x, whatever the
  -- reading y in between was.
  pub change_against_reading_before_last :
      (t t' t'' : ℤ) (key : Bytes) (jx jy jz : Json) (g : Globals) (i : ℕ) (x y z : ℤ)
      (v : SensorValue)
      → find_sensor_value_by_name key g.humifier ≡ some i
      → get_elem? g.humifier.sensor_values i ≡ some v
      → v.last_reported ≢ pos 0
      → reading_of jx ≡ some x
      → reading_of jy ≡ some y
      → reading_of jz ≡ some z
      → let after_x = (device_entries json t ((key, jx) ∷ []) g).0 in
        let after_y = (device_entries json t' ((key, jy) ∷ []) after_x).0 in
        (device_entries json t'' ((key, jz) ∷ []) after_y).1 ≡ not (x ==ℤ z)
  change_against_reading_before_last t t' t'' key jx jy jz g i x y z v f e reported rx ry rz =
      let after_x = (device_entries json t ((key, jx) ∷ []) g).0 in
      let after_y = (device_entries json t' ((key, jy) ∷ []) after_x).0 in
      let fx : find_sensor_value_by_name key after_x.humifier ≡ some i =
        find-device_entries key t key jx g ∙ f in
      let ex = device_entry-stored t key jx g i x v f rx e in
      let fy : find_sensor_value_by_name key after_y.humifier ≡ some i =
        find-device_entries key t' key jy after_x ∙ fx in
      let ey = device_entry-stored t' key jy after_x i y (store_value t x v) fx ry ex in
      device_entry-flag t'' key jz after_y i z (store_value t' y (store_value t x v)) fy rz ey
      ∙ ground (arith, ==ℤ_iff v.last_reported (pos 0))
