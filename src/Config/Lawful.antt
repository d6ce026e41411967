-- ===== src/Config/Lawful.antt =====
-- What the program relies on libconfig for: a configuration is a map from paths to settings.
use dss_vdc_venta.Prelude.{
  ℕ, ◌<◌, ◌≡◌, ◌≢◌, refl, Bool, true, false, ◌&&◌, Option, none, some, List, [], ◌∷◌, ℤ, pos,
  negsuc, ltb_ℤ, if◌then◌else◌, arith, Bool-cases, inl, inr, sym, ◌∙◌, ap,
}
use dss_vdc_venta.CString.{Bytes, strcmp_eq, digits}
use dss_vdc_venta.CString.Search.{strcmp_eq_iff, strcmp_eq_refl}
use dss_vdc_venta.CString.Decimal.{digits-injective}
use dss_vdc_venta.Config.Libconfig.{
  Libconfig, SettingPath, Kind, int_kind, string_kind, group_kind, slot_name,
}

abbrev pub path_eq : SettingPath → SettingPath → Bool
path_eq [] [] = true
path_eq (a ∷ p) (b ∷ q) = strcmp_eq a b && path_eq p q
path_eq _ _ = false

pub data Setting : Type 0 where
  group_setting : Setting
  int_setting : ℤ → Setting
  string_setting : Option Bytes → Setting

-- The settings of a configuration; the first under a path counts.
abbrev pub SettingMap : Type 0
SettingMap = List (SettingPath × Setting)

abbrev pub find : SettingPath → SettingMap → Option Setting
find p [] = none
find p ((q, s) ∷ settings) = if path_eq p q then some s else find p settings

abbrev pub is_there : Option Setting → Bool
is_there none = false
is_there (some s) = true

abbrev pub int_of : Option Setting → Option ℤ
int_of (some (int_setting i)) = some i
int_of _ = none

abbrev pub string_of : Option Setting → Option Bytes
string_of (some (string_setting s)) = s
string_of _ = none

abbrev pub is_group : Option Setting → Bool
is_group (some group_setting) = true
is_group _ = false

-- The setting that config_setting_add makes.
abbrev pub new_setting : Kind → Setting
new_setting int_kind = int_setting (pos 0)
new_setting string_kind = string_setting none
new_setting group_kind = group_setting

abbrev pub parent : SettingPath → SettingPath
parent [] = []
parent (a ∷ []) = []
parent (a ∷ b ∷ p) = a ∷ parent (b ∷ p)

-- The root is a group.
abbrev pub group_at : (SettingPath → Option Setting) → SettingPath → Bool
group_at view [] = true
group_at view (a ∷ p) = is_group (view (a ∷ p))

-- The settings with an integer where it is not negative.
abbrev pub with_set : SettingPath → ℤ → SettingMap → SettingMap
with_set p i settings = if ltb_ℤ (negsuc 0) i then (p, int_setting i) ∷ settings else settings

-- The documented behaviour. A setting is added under a group that has none of the name; an integer
-- and a string keep their type; a string that was never set is not looked up.
pub record IsLawful (lib : Libconfig) : Type 0 where
  pub view : lib.Config → SettingPath → Option Setting
  pub lookup_law : (c : lib.Config) (p : SettingPath) → lib.lookup c p ≡ is_there (view c p)
  pub int_law : (c : lib.Config) (p : SettingPath) → lib.lookup_int c p ≡ int_of (view c p)
  pub string_law :
      (c : lib.Config) (p : SettingPath)
      → view c p ≢ some (string_setting none)
      → lib.lookup_string c p ≡ string_of (view c p)
  pub init_law : (p : SettingPath) → view lib.init p ≡ none
  pub add_law :
      (c : lib.Config) (p : SettingPath) (kind : Kind)
      → view c p ≡ none
      → group_at (view c) (parent p) ≡ true
      → (c' : lib.Config) × (lib.setting_add c p kind ≡ some c')
        × ((r : SettingPath)
            → view c' r ≡ (if path_eq r p then some (new_setting kind) else view c r))
  pub set_int_law :
      (c : lib.Config) (p : SettingPath) (i j : ℤ)
      → view c p ≡ some (int_setting j)
      → (r : SettingPath)
      → view (lib.setting_set_int c p i) r
        ≡ (if path_eq r p then some (int_setting i) else view c r)
  pub set_string_law :
      (c : lib.Config) (p : SettingPath) (s t : Option Bytes)
      → view c p ≡ some (string_setting t)
      → (r : SettingPath)
      → view (lib.setting_set_string c p s) r
        ≡ (if path_eq r p then some (string_setting s) else view c r)

pub path_eq_refl : (p : SettingPath) → path_eq p p ≡ true
path_eq_refl [] = refl
path_eq_refl (a ∷ p) = rw (strcmp_eq_refl a, path_eq_refl p) refl

-- Slots with different indices have different names.
pub slot_differs : (i j : ℕ) → i < j → strcmp_eq (slot_name j) (slot_name i) ≡ false
slot_differs i j h = elim (Bool-cases (strcmp_eq (slot_name j) (slot_name i))) [
  | inr other ↦ other
  | inl equal ↦
      let names : slot_name j ≡ slot_name i = (strcmp_eq_iff (slot_name j) (slot_name i)).0 equal in
      let tails : digits j ≡ digits i = cc names in
      let same = digits-injective j i tails in absurd (omega arith)
]

pub slot_differs_later : (i j : ℕ) → i < j → strcmp_eq (slot_name i) (slot_name j) ≡ false
slot_differs_later i j h = elim (Bool-cases (strcmp_eq (slot_name i) (slot_name j))) [
  | inr other ↦ other
  | inl equal ↦
      let names : slot_name i ≡ slot_name j = (strcmp_eq_iff (slot_name i) (slot_name j)).0 equal in
      let tails : digits i ≡ digits j = cc names in
      let same = digits-injective i j tails in absurd (omega arith)
]

module _ (lib : Libconfig) (law : IsLawful lib) where
  open lib use {Config}

  -- The configuration has exactly these settings.
  abbrev pub Holds : Config → SettingMap → Type 0
  Holds c settings = (p : SettingPath) → law.view c p ≡ find p settings

  -- A text that was set is looked up.
  pub string_at :
      (c : Config) (p : SettingPath) (s : Bytes)
      → law.view c p ≡ some (string_setting (some s))
      → lib.lookup_string c p ≡ some s
  string_at c p s h =
      law.string_law c p (λ e. let bad : some s ≡ none = ap string_of (sym h ∙ e) in absurd cc)
      ∙ ap string_of h

  pub string_at_none :
      (c : Config) (p : SettingPath) → law.view c p ≡ none → lib.lookup_string c p ≡ none
  string_at_none c p h =
      law.string_law c p (λ e. let bad : none ≡ some (string_setting none) = sym h ∙ e in absurd cc)
      ∙ ap string_of h

  pub int_at :
      (c : Config) (p : SettingPath) (o : Option Setting)
      → law.view c p ≡ o
      → lib.lookup_int c p ≡ int_of o
  int_at c p o h = law.int_law c p ∙ ap int_of h
