-- ===== src/Vdc/Zone.antt =====
-- Setting the zone of the connector and of the device.
use dss_vdc_venta.Network.Parse.{unlock}
use dss_vdc_venta.Main.Loop.{try_lock}
use dss_vdc_venta.Network.Parse.Unlocking.{IsOurs, unlock-IsOurs}
use dss_vdc_venta.Prelude.{
  Bool, Option, ℤ, List, ℕ, ◌∷◌, ◌≡◌, none, [], some, ◌↔◌, true, refl, false, ◌≢◌, arith,
  Option-cases, if◌then◌else◌, inl, ap, get_or, inr, Bool-cases, ◌+◌, ◌∙◌,
}
use dss_vdc_venta.Vdc.SetProp.{
  PropertyName, name_error, wildcard, named, Property, Code, dsvdc_ok, err_not_implemented, to_int,
  set_default_zone, is_zone_id, set_vdc_from, set_device_from, set_device_zone, Effect,
  config_written, vdc_effects, vdc_setprop_cb, err_missing_data, err_invalid_value_type,
  err_not_found, device_effects, property_free,
}
use dss_vdc_venta.Types.{Globals, VentaVdcd, main_thread, Mutex}
use dss_vdc_venta.CString.{Bytes, strcasecmp_eq}

-- The zone that a property sets, if it is a zone with a number.
abbrev pub zone_value : Bool → Option ℕ → Option ℕ
zone_value true value = value
zone_value false value = none

abbrev pub zone_named : PropertyName → Option ℕ → Option ℕ
zone_named (named name) value = zone_value (is_zone_id name) value
zone_named _ value = none

abbrev pub zone_of : Property → Option ℕ
zone_of p = zone_named p.name p.uint

-- The last zone before the first property that is none.
abbrev pub last_zone : ℤ → List Property → ℤ
last_zone zone [] = zone
last_zone zone (p ∷ ps) = elim (zone_of p) [ none ↦ zone | some z ↦ last_zone (to_int z) ps ]

abbrev pub AllZones : List Property → Type 0
AllZones [] = Unit
AllZones (p ∷ ps) = ((z : ℕ) × (zone_of p ≡ some z)) × AllZones ps

-- The code for a property that sets no zone.
abbrev pub refusal : PropertyName → Code
refusal name_error = err_missing_data
refusal wildcard = err_not_implemented
refusal (named name) = if is_zone_id name then err_invalid_value_type else err_not_found

set_vdc_from-some :
    (code : Code) (p : Property) (ps : List Property) (g : Globals) (z : ℕ)
    → zone_of p ≡ some z
    → set_vdc_from code (p ∷ ps) g ≡ set_vdc_from dsvdc_ok ps (set_default_zone z g)
unfolding set_vdc_from
set_vdc_from-some code p ps g z e = ground arith

set_vdc_from-none :
    (code : Code) (p : Property) (ps : List Property) (g : Globals)
    → zone_of p ≡ none
    → set_vdc_from code (p ∷ ps) g ≡ (refusal p.name, g)
unfolding set_vdc_from
set_vdc_from-none code p ps g e = ground arith

set_vdc_from-zone :
    (code : Code) (ps : List Property) (g : Globals)
    → (set_vdc_from code ps g).1 ≡ record g { default_zone_id = last_zone g.default_zone_id ps }
set_vdc_from-zone code [] g = unfold set_vdc_from in refl
set_vdc_from-zone code (p ∷ ps) g = elim (Option-cases (zone_of p)) [
  | inl other ↦ rw (set_vdc_from-none code p ps g other) (rw (other, last_zone) refl)
  | inr (z, zone) ↦
      rw (set_vdc_from-some code p ps g z zone)
        (rw (zone, last_zone) (set_vdc_from-zone dsvdc_ok ps (set_default_zone z g)))
]

refusal-ne-ok : (name : PropertyName) → refusal name ≢ dsvdc_ok
refusal-ne-ok name = ground arith

-- Every property is a zone with a number, and there is one, or the code was a success before.
abbrev pub Succeeds : Code → List Property → Type 0
Succeeds code [] = code ≡ dsvdc_ok
Succeeds code (p ∷ ps) = AllZones (p ∷ ps)

Succeeds-ok : (ps : List Property) → Succeeds dsvdc_ok ps ↔ AllZones ps
Succeeds-ok [] = (λ _. tt, λ _. refl)
Succeeds-ok (p ∷ ps) = (λ a. a, λ a. a)

set_vdc_from-ok :
    (code : Code) (ps : List Property) (g : Globals)
    → ((set_vdc_from code ps g).0 ≡ dsvdc_ok) ↔ Succeeds code ps
set_vdc_from-ok code [] g = unfold set_vdc_from in (λ e. e, λ e. e)
set_vdc_from-ok code (p ∷ ps) g = elim (Option-cases (zone_of p)) [
  | inl other ↦ (
    λ e. absurd (refusal-ne-ok p.name (rw (set_vdc_from-none code p ps g other) at e)),
    λ all. absurd (ground (arith, all.0.1)),
  )
  | inr (z, zone) ↦
      let ih = set_vdc_from-ok dsvdc_ok ps (set_default_zone z g) in
      (
        λ e.
            ((z, zone), (Succeeds-ok ps).0 (ih.0 (rw (set_vdc_from-some code p ps g z zone) at e))),
        λ all. rw (set_vdc_from-some code p ps g z zone) (ih.1 ((Succeeds-ok ps).1 all.1)),
      )
]

abbrev pub is_written : List Effect → Bool
is_written (config_written ∷ _) = true
is_written _ = false

-- A request to the connector itself always returns. It sets the zone to that of the last property
-- before the first one that is no zone with a number, and nothing else. The configuration is written
-- exactly if there is a property and all of them are zones with a number, so a zone that stands
-- before another property is set and not written.
pub vdc_setprop_cb_zone :
    (dsuid : Bytes) (ps : List Property) (g : Globals)
    → strcasecmp_eq g.vdc_dsuid dsuid ≡ true
    → (effects : List Effect) × (vdc_setprop_cb dsuid ps g
        ≡ some (record g { default_zone_id = last_zone g.default_zone_id ps }, effects))
      × ((is_written effects ≡ true) ↔ Succeeds err_not_implemented ps)
vdc_setprop_cb_zone dsuid ps g e =
    let code = (set_vdc_from err_not_implemented ps g).0 in
    (
      vdc_effects code,
      unfold vdc_setprop_cb in
          simp e
            (ap (λ g'. some (g', vdc_effects code)) (set_vdc_from-zone err_not_implemented ps g)),
      (
        λ w. (set_vdc_from-ok err_not_implemented ps g).0 (written_ok code w),
        λ s. ok_written code ((set_vdc_from-ok err_not_implemented ps g).1 s),
      ),
    )
  where
    written_ok : (code : Code) → is_written (vdc_effects code) ≡ true → code ≡ dsvdc_ok
    written_ok code w = ground arith

    ok_written : (code : Code) → code ≡ dsvdc_ok → is_written (vdc_effects code) ≡ true
    ok_written code o = ground arith

set_device_from-mutex :
    (code : Code) (ps : List Property) (g : Globals)
    → (set_device_from code ps g).1.network_mutex ≡ g.network_mutex
unfolding set_device_from
set_device_from-mutex code [] g = refl
set_device_from-mutex code (p ∷ ps) g = ground (
  arith,
  set_device_from-mutex code ps g,
  set_device_from-mutex dsvdc_ok ps g,
  set_device_from-mutex dsvdc_ok ps (set_device_zone (get_or p.uint 0) g),
)

abbrev pub held : ℕ → Mutex
held n = record { owner = main_thread; depth = n }

pub try_lock_ours : (m : Mutex) → IsOurs m → try_lock main_thread m ≡ some (held (m.depth + 1))
unfolding try_lock
try_lock_ours m o = ground arith

pub unlock-held : (n : ℕ) → unlock main_thread (held (n + 1)) ≡ held n
unfolding unlock
unlock-held n = ground arith

-- On a mutex that is free or the main thread's own, a request that reaches a device returns, on
-- every path with the mutex held as often as before, and still free or the main thread's.
pub vdc_setprop_cb-depth :
    (dsuid : Bytes) (ps : List Property) (g : Globals) (d : VentaVdcd)
    → IsOurs g.network_mutex
    → g.device ≡ some d
    → (g' : Globals) × (effects : List Effect) × (vdc_setprop_cb dsuid ps g ≡ some (g', effects))
      × (g'.network_mutex.depth ≡ g.network_mutex.depth)
      × IsOurs g'.network_mutex
vdc_setprop_cb-depth dsuid ps g d o e = elim (Bool-cases (strcasecmp_eq g.vdc_dsuid dsuid)) [
  | inl vdc ↦
      let (effects, ran, _) = vdc_setprop_cb_zone dsuid ps g vdc in
      (record g { default_zone_id = last_zone g.default_zone_id ps }, effects, ran, refl, o)
  | inr other ↦ elim (Bool-cases (strcasecmp_eq d.dsuidstring dsuid)) [
    | inr foreign ↦
        (g, property_free ∷ [], unfold vdc_setprop_cb in simp (other, e, foreign), refl, o)
    | inl ours ↦
        let locked = record g { network_mutex = held (g.network_mutex.depth + 1) } in
        let result = set_device_from err_not_implemented ps locked in
        (
          record result.1 { network_mutex = unlock main_thread result.1.network_mutex },
          device_effects result.0,
          unfold vdc_setprop_cb in simp (other, e, ours, try_lock_ours g.network_mutex o),
          ap (λ (m : Mutex). (unlock main_thread m).depth)
                (set_device_from-mutex err_not_implemented ps locked)
              ∙ ap (λ (m : Mutex). m.depth) (unlock-held g.network_mutex.depth),
          unlock-IsOurs main_thread result.1.network_mutex
              (rw (set_device_from-mutex err_not_implemented ps locked) (inr refl)),
        )
  ]
]
