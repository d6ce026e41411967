-- ===== src/Config/Write/Leads.antt =====
-- What the calls that write a configuration add to its settings.
use dss_vdc_venta.Prelude.{
  ◌>>=◌, ◌≡◌, refl, Bool, true, false, Option, none, some, [], ◌∷◌, ℤ, pos, negsuc, ltb_ℤ,
  if◌then◌else◌, Bool-cases, inl, inr, ◌∙◌, ap,
}
use dss_vdc_venta.CString.{Bytes}
use dss_vdc_venta.Config.Libconfig.{Libconfig, SettingPath, Kind, int_kind, string_kind}
use dss_vdc_venta.Config.Write.{add_or_get, put_int, put_string, put_if_set}
use dss_vdc_venta.Config.Lawful.{
  path_eq, Setting, int_setting, string_setting, SettingMap, find, is_group, new_setting, parent,
  group_at, with_set, IsLawful, path_eq_refl, Holds,
}

module _ (lib : Libconfig) (law : IsLawful lib) where
  open lib use {Config}

  -- An action on configurations that adds settings to those that are there.
  abbrev pub Leads : (Config → Option Config) → SettingMap → SettingMap → Type 0
  Leads f before after =
      (c : Config)
      → Holds lib law c before
      → (c' : Config) × (f c ≡ some c') × Holds lib law c' after

  abbrev pub CanAdd : SettingPath → SettingMap → Type 0
  CanAdd p settings = (find p settings ≡ none) × (group_at (λ q. find q settings) (parent p) ≡ true)

  group_at_same :
      (c : Config) (settings : SettingMap) (p : SettingPath)
      → Holds lib law c settings
      → group_at (law.view c) p ≡ group_at (λ q. find q settings) p
  group_at_same c settings [] h = refl
  group_at_same c settings (a ∷ p) h = ap is_group (h (a ∷ p))

  pub setting_add-Leads :
      (p : SettingPath) (kind : Kind) (settings : SettingMap)
      → CanAdd p settings
      → Leads (λ c. lib.setting_add c p kind) settings ((p, new_setting kind) ∷ settings)
  setting_add-Leads p kind settings (free, grouped) c h =
      let (c', added, now) =
        law.add_law c p kind (h p ∙ free) (group_at_same c settings (parent p) h ∙ grouped) in
      (c', added, λ r. now r ∙ ap (λ o. if path_eq r p then some (new_setting kind) else o) (h r))

  pub add_or_get-Leads :
      (p : SettingPath) (kind : Kind) (settings : SettingMap)
      → CanAdd p settings
      → Leads (add_or_get lib p kind) settings ((p, new_setting kind) ∷ settings)
  unfolding add_or_get
  add_or_get-Leads p kind settings can c h =
      let (c', added, now) = setting_add-Leads p kind settings can c h in
      (c', rw (added, add_or_get) refl, now)

  twice :
      (b : Bool) (s t : Setting) (o : Option Setting)
      → (if b then some s else (if b then some t else o)) ≡ (if b then some s else o)
  twice true s t o = refl
  twice false s t o = refl

  pub put_int-Leads :
      (p : SettingPath) (i : ℤ) (settings : SettingMap)
      → CanAdd p settings
      → Leads (put_int lib p i) settings ((p, int_setting i) ∷ settings)
  unfolding put_int
  put_int-Leads p i settings can c h =
      let (c', added, now) = add_or_get-Leads p int_kind settings can c h in
      let same = path_eq_refl p in
      (
        lib.setting_set_int c' p i,
        rw added refl,
        λ r.
            law.set_int_law c' p i (pos 0) (now p ∙ rw same refl) r
            ∙ ap (λ o. if path_eq r p then some (int_setting i) else o) (now r)
            ∙ twice (path_eq r p) (int_setting i) (int_setting (pos 0)) (find r settings),
      )

  pub put_string-Leads :
      (p : SettingPath) (s : Option Bytes) (settings : SettingMap)
      → CanAdd p settings
      → Leads (put_string lib p s) settings ((p, string_setting s) ∷ settings)
  unfolding put_string
  put_string-Leads p s settings can c h =
      let (c', added, now) = add_or_get-Leads p string_kind settings can c h in
      let same = path_eq_refl p in
      (
        lib.setting_set_string c' p s,
        rw added refl,
        λ r.
            law.set_string_law c' p s none (now p ∙ rw same refl) r
            ∙ ap (λ o. if path_eq r p then some (string_setting s) else o) (now r)
            ∙ twice (path_eq r p) (string_setting s) (string_setting none) (find r settings),
      )

  pub put_if_set-Leads :
      (p : SettingPath) (i : ℤ) (settings : SettingMap)
      → CanAdd p settings
      → Leads (put_if_set lib p i) settings (with_set p i settings)
  unfolding put_if_set
  put_if_set-Leads p i settings can c h = elim (Bool-cases (ltb_ℤ (negsuc 0) i)) [
    | inl set ↦ rw (set, put_if_set) (put_int-Leads p i settings can c h)
    | inr unset ↦ rw (unset, put_if_set) (c, refl, h)
  ]

  pub then-Leads :
      (f k : Config → Option Config) (a b d : SettingMap)
      → Leads f a b
      → Leads k b d
      → Leads (λ c. f c >>= k) a d
  then-Leads f k a b d first second c h =
      let (c', ran, now) = first c h in
      let (c'', ran', now') = second c' now in (c'', rw ran ran', now')
