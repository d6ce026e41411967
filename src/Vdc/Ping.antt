-- ===== src/Vdc/Ping.antt =====
-- `vdc_ping_cb` of venta/vdsd.c.
use dss_vdc_venta.CString.Search.{strcmp_eq_refl}
use dss_vdc_venta.Prelude.{
  Option, ◌≡◌, List, some, if◌then◌else◌, true, All, ◌∷◌, ◌⊎◌, length, [], map, none, Bool-cases,
  inl, inr, arith, refl,
}
use dss_vdc_venta.Types.{VentaVdcd, Globals}
use dss_vdc_venta.CString.{Bytes, strcasecmp_eq, to_lower}

abbrev pub ping_device : Bytes → Option VentaVdcd → Option (List Bytes)
ping_device dsuid none = none
ping_device dsuid (some d) =
    some (if strcasecmp_eq dsuid d.dsuidstring then d.dsuidstring ∷ [] else [])

-- The texts that `dsvdc_send_pong` is called with; `none` where a null `humifier_device` is read.
unfoldable pub vdc_ping_cb : Bytes → Globals → Option (List Bytes)
vdc_ping_cb dsuid g =
    if strcasecmp_eq dsuid g.vdc_dsuid
    then some (dsuid ∷ [])
    else if strcasecmp_eq dsuid g.lib_dsuid
    then some (dsuid ∷ [])
    else ping_device dsuid g.device

-- One of the three names that the process answers to.
abbrev pub IsKnown : Bytes → Globals → VentaVdcd → Type 0
IsKnown dsuid g d =
    (strcasecmp_eq dsuid g.vdc_dsuid ≡ true)
    ⊎ (strcasecmp_eq dsuid g.lib_dsuid ≡ true)
    ⊎ (strcasecmp_eq dsuid d.dsuidstring ≡ true)

-- The same text, letter case aside.
abbrev pub AllNamed : Bytes → List Bytes → Type 0
AllNamed dsuid pongs = All (λ p. strcasecmp_eq dsuid p ≡ true) pongs

strcasecmp_eq_refl : (s : Bytes) → strcasecmp_eq s s ≡ true
unfolding strcasecmp_eq
strcasecmp_eq_refl s = strcmp_eq_refl (map to_lower s)

-- With a device, a ping is answered by exactly one pong if it names the connector, the library or
-- the device, letter case aside, and by none otherwise; a pong carries the name that was asked for,
-- letter case aside.
pub vdc_ping_cb_answers :
    (dsuid : Bytes) (g : Globals) (d : VentaVdcd)
    → g.device ≡ some d
    → (pongs : List Bytes) × (vdc_ping_cb dsuid g ≡ some pongs)
      × (IsKnown dsuid g d → length pongs ≡ 1)
      × (¬ (IsKnown dsuid g d) → pongs ≡ [])
      × AllNamed dsuid pongs
unfolding vdc_ping_cb
vdc_ping_cb_answers dsuid g d e = elim (Bool-cases (strcasecmp_eq dsuid g.vdc_dsuid)) [
  | inl vdc ↦
      (dsuid ∷ [], simp vdc, λ _. refl, λ n. absurd (n (inl vdc)), (strcasecmp_eq_refl dsuid, tt))
  | inr a ↦ elim (Bool-cases (strcasecmp_eq dsuid g.lib_dsuid)) [
    | inl libd ↦ (
      dsuid ∷ [],
      simp (a, libd),
      λ _. refl,
      λ n. absurd (n (inr (inl libd))),
      (strcasecmp_eq_refl dsuid, tt),
    )
    | inr b ↦ elim (Bool-cases (strcasecmp_eq dsuid d.dsuidstring)) [
      | inl device ↦ (
        d.dsuidstring ∷ [],
        simp (a, b, e, device),
        λ _. refl,
        λ n. absurd (n (inr (inr device))),
        (device, tt),
      )
      | inr c ↦ ([], simp (a, b, e, c), λ k. ground arith, λ _. refl, tt)
    ]
  ]
]
