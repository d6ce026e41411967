-- ===== src/System/Setting.antt =====
-- A request to set properties leaves the process up.
use dss_vdc_venta.Network.Parse.{unlock}
use dss_vdc_venta.Vdc.Zone.{vdc_setprop_cb_zone, last_zone, held, try_lock_ours}
use dss_vdc_venta.Network.Parse.Unlocking.{unlock-IsOurs}
use dss_vdc_venta.CString.{Bytes, strcasecmp_eq}
use dss_vdc_venta.Vdc.SetProp.{
  set_device_from, set_device_zone, Code, Property, Effect, vdc_setprop_cb, property_free,
  PropertyName, named, err_not_implemented, is_zone_id, dsvdc_ok, device_effects, name_error,
  wildcard,
}
use dss_vdc_venta.Prelude.{
  Option, ℕ, ◌≡◌, List, some, refl, ◌∷◌, [], Bool-cases, inl, inr, ◌+◌, Option-cases,
}
use dss_vdc_venta.System.Running.{
  with_mutex-IsUp, Facts, IsUp, IsLoaded-same, Goes, Sends-none, Goes-refl, IsUp-same,
}
use dss_vdc_venta.Types.{Globals, main_thread}

module _ (f : Facts) where
  set_zone-IsUp : (z : ℕ) (g : Globals) → IsUp f g → IsUp f (set_device_zone z g)
  set_zone-IsUp z g u = record {
    humifier = record {
      table =
          IsLoaded-same g.humifier (set_device_zone z g).humifier f.loaded f.free refl refl
            u.humifier.table;
      identified = u.humifier.identified;
      titled = u.humifier.titled;
      address = u.humifier.address;
      gap = u.humifier.gap;
      size = u.humifier.size;
    };
    device = u.device;
    there = u.there;
    same_dsuid = u.same_dsuid;
    ours = u.ours;
  }

  -- Up, with nothing sent.
  abbrev IsQuiet : Globals → Globals → Type 0
  IsQuiet g g' = IsUp f g' × (g'.posts ≡ g.posts)

  set_device_from_property :
      (code : Code) (name : PropertyName) (value : Option ℕ) (ps : List Property) (g : Globals)
      → ((code' : Code) (g' : Globals) → IsUp f g' → IsQuiet g' (set_device_from code' ps g').1)
      → IsUp f g
      → IsQuiet g (set_device_from code (record { name = name; uint = value } ∷ ps) g).1
  unfolding set_device_from
  set_device_from_property code name_error value ps g later u = (u, refl)
  set_device_from_property code wildcard value ps g later u = later code g u
  set_device_from_property code (named name) value ps g later u =
      elim (Bool-cases (is_zone_id name)) [
        | inr other ↦ rw (other, set_device_from) (later dsvdc_ok g u)
        | inl zone ↦ elim (Option-cases value) [
          | inl no_number ↦ rw (zone, no_number, set_device_from) (u, refl)
          | inr (z, number) ↦
              rw (zone, number, set_device_from)
                (later dsvdc_ok (set_device_zone z g) (set_zone-IsUp z g u))
        ]
      ]

  set_device_from-IsQuiet :
      (code : Code) (ps : List Property) (g : Globals)
      → IsUp f g
      → IsQuiet g (set_device_from code ps g).1
  set_device_from-IsQuiet code [] g u = unfold set_device_from in (u, refl)
  set_device_from-IsQuiet code (p ∷ ps) g u =
      set_device_from_property code p.name p.uint ps g
        (λ code' g' u'. set_device_from-IsQuiet code' ps g' u') u

  pub vdc_setprop_cb-Goes :
      (dsuid : Bytes) (ps : List Property) (g : Globals)
      → IsUp f g
      → (g' : Globals) × (effects : List Effect) × (vdc_setprop_cb dsuid ps g ≡ some (g', effects))
        × Goes f g g'
  vdc_setprop_cb-Goes dsuid ps g u = elim (Bool-cases (strcasecmp_eq g.vdc_dsuid dsuid)) [
    | inl vdc ↦
        let (effects, ran, _) = vdc_setprop_cb_zone dsuid ps g vdc in
        let g' = record g { default_zone_id = last_zone g.default_zone_id ps } in
        (
          g',
          effects,
          ran,
          record { up = IsUp-same f g g' refl refl u.ours u; sends = Sends-none f.ip g g' refl },
        )
    | inr other ↦ elim (Bool-cases (strcasecmp_eq u.device.dsuidstring dsuid)) [
      | inr foreign ↦ (
        g,
        property_free ∷ [],
        unfold vdc_setprop_cb in simp (other, u.there, foreign),
        Goes-refl f g u,
      )
      | inl ours ↦
          let locked = record g { network_mutex = held (g.network_mutex.depth + 1) } in
          let result = set_device_from err_not_implemented ps locked in
          let (up, posts) =
            set_device_from-IsQuiet err_not_implemented ps locked
              (with_mutex-IsUp f (held (g.network_mutex.depth + 1)) g (inr refl) u) in
          let m = unlock main_thread result.1.network_mutex in
          let g' = record result.1 { network_mutex = m } in
          (
            g',
            device_effects result.0,
            unfold vdc_setprop_cb in
                simp (other, u.there, ours, try_lock_ours g.network_mutex u.ours),
            record {
              up =
                  with_mutex-IsUp f m result.1
                    (unlock-IsOurs main_thread result.1.network_mutex up.ours) up;
              sends = Sends-none f.ip g g' posts;
            },
          )
    ]
  ]
