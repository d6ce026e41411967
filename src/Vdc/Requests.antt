-- ===== src/Vdc/Requests.antt =====
-- The callbacks of venta/vdsd.c that change no global: generic requests, the start of a session,
-- removal of a device, saving a scene. Those for the end of a session and for the results of the
-- announcements only log.
use dss_vdc_venta.Prelude.{
  ℕ, ◌+◌, ◌≡◌, Bool, true, false, if◌then◌else◌, Option, none, some, List, [], ◌∷◌, All, arith,
  length,
}
use dss_vdc_venta.CString.{Bytes, codes, strcmp_eq, strcasecmp_eq}
use dss_vdc_venta.Types.{Globals}
use dss_vdc_venta.Vdc.SetProp.{PropertyName, name_error, wildcard, named}

-- One property of a generic request: its name, and its value by dsvdc_property_get_string.
pub record GenericProperty : Type 0 where
  pub name : PropertyName
  pub string : Option Bytes

-- The loop over the properties: how many blocks for a scene are allocated in the end. None of them
-- is freed. The parameter says whether `malloc` gives the next one.
unfoldable pub generic_blocks : (ℕ → Bool) → List GenericProperty → ℕ → ℕ
unfolding strcmp_eq
generic_blocks allocated [] n = n
generic_blocks allocated (p ∷ ps) n = elim p.name [
  | name_error ↦ n
  | wildcard ↦ n
  | named name ↦ elim (strcmp_eq name (codes "id")) [
    | false ↦ generic_blocks allocated ps n
    | true ↦ elim p.string [
      | none ↦ n
      | some id ↦ elim (allocated n) [ false ↦ n | true ↦ generic_blocks allocated ps (n + 1) ]
    ]
  ]
]

-- The blocks that are left behind; `none` where a null `humifier_device` is read. The code that the
-- loop chooses is sent to nobody, and the command that a value names is only logged.
unfoldable pub vdc_request_generic_cb :
    (ℕ → Bool) → Bytes → List GenericProperty → Globals → Option ℕ
unfolding generic_blocks strcasecmp_eq
vdc_request_generic_cb allocated dsuid ps g = elim g.device [
  | none ↦ none
  | some d ↦ some (if strcasecmp_eq d.dsuidstring dsuid then generic_blocks allocated ps 0 else 0)
]

-- A scene that the server asks to save is compared with the device, and that is all.
unfoldable pub vdc_savescene_cb : Bytes → Globals → Option Globals
unfolding strcasecmp_eq
vdc_savescene_cb dsuid g = elim g.device [
  | none ↦ none
  | some d ↦ some (if strcasecmp_eq d.dsuidstring dsuid then g else g)
]

-- The container that `dsvdc_announce_container` is called with.
unfoldable pub vdc_new_session_cb : Globals → Bytes
vdc_new_session_cb g = g.vdc_dsuid

unfoldable pub vdc_remove_cb : Bytes → Bool
vdc_remove_cb dsuid = true

abbrev IsId : GenericProperty → Type 0
IsId p = (p.name ≡ named (codes "id")) × (id : Bytes) × (p.string ≡ some id)

-- A request of so many commands leaves as many blocks behind.
pub generic_blocks_leak :
    (ps : List GenericProperty) (n : ℕ)
    → All IsId ps
    → generic_blocks (λ k. true) ps n ≡ n + length ps
unfolding generic_blocks
generic_blocks_leak [] n h = omega arith
generic_blocks_leak (p ∷ ps) n ((is_id, id, there), h) =
    rw (is_id, there, generic_blocks)
      (let rest = generic_blocks_leak ps (n + 1) h in omega (arith, rest))
