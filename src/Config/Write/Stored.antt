-- ===== src/Config/Write/Stored.antt =====
-- The settings that `write_config` stores, beside its calls of libconfig.
use dss_vdc_venta.Prelude.{
  ℕ, ◌+◌, ◌≤◌, ◌≡◌, refl, true, false, none, some, List, [], ◌∷◌, ℤ, negsuc, ltb_ℤ, ◌==ℤ◌, arith,
  Bool-cases, inl, inr, ◌∙◌, String,
}
use dss_vdc_venta.CString.{codes, strcmp_eq}
use dss_vdc_venta.CString.Search.{strcmp_eq_refl}
use dss_vdc_venta.Types.{Scene}
use dss_vdc_venta.Config.Libconfig.{SettingPath, scenes_path, scene_path, scene_member, slot_name}
use dss_vdc_venta.Config.Lawful.{
  group_setting, int_setting, SettingMap, find, path_eq, path_eq_refl, slot_differs, with_set,
}

-- One scene, on top of what is there; -1 stands for no value.
abbrev pub scene_settings : ℕ → Scene → SettingMap → SettingMap
scene_settings i s settings = with_set (scene_member i "mode_automatic") s.mode_automatic (
    with_set (scene_member i "mode_sleep") s.mode_sleep (
      with_set (scene_member i "fan") s.fan
        ((scene_member i "dsId", int_setting s.ds_id) ∷ (scene_path i, group_setting) ∷ settings)))

-- The scenes up to the first free slot.
unfoldable pub scenes_settings : ℕ → List Scene → SettingMap → SettingMap
scenes_settings i [] settings = settings
scenes_settings i (s ∷ slots) settings = elim (s.ds_id ==ℤ negsuc 0) [
  | true ↦ settings
  | false ↦ scenes_settings (i + 1) slots (scene_settings i s settings)
]

-- Slots of the scenes from an index on are not there yet, and their group is.
abbrev pub HasRoom : ℕ → SettingMap → Type 0
HasRoom i settings =
    (find scenes_path settings ≡ some group_setting)
    × ((j : ℕ)
        → i ≤ j
        → (rest : SettingPath)
        → find (codes "humifier" ∷ codes "scenes" ∷ slot_name j ∷ rest) settings ≡ none)

pub find-with_set :
    (r p : SettingPath) (i : ℤ) (settings : SettingMap)
    → path_eq r p ≡ false
    → find r (with_set p i settings) ≡ find r settings
find-with_set r p i settings other = elim (Bool-cases (ltb_ℤ (negsuc 0) i)) [
  | inl set ↦ rw (set, other) refl
  | inr unset ↦ rw unset refl
]

-- A path that is none of a scene's is looked up below the scene.
abbrev pub IsElsewhere : SettingPath → ℕ → Type 0
IsElsewhere r i =
    (path_eq r (scene_path i) ≡ false) × ((name : String) → path_eq r (scene_member i name) ≡ false)

pub find-scene_settings :
    (r : SettingPath) (i : ℕ) (s : Scene) (settings : SettingMap)
    → IsElsewhere r i
    → find r (scene_settings i s settings) ≡ find r settings
find-scene_settings r i s settings (group, member) =
    find-with_set r (scene_member i "mode_automatic") s.mode_automatic _ (member "mode_automatic")
    ∙ find-with_set r (scene_member i "mode_sleep") s.mode_sleep _ (member "mode_sleep")
    ∙ find-with_set r (scene_member i "fan") s.fan _ (member "fan")
    ∙ rw (member "dsId", group) refl

pub scenes_path-IsElsewhere : (i : ℕ) → IsElsewhere scenes_path i
unfolding strcmp_eq
scenes_path-IsElsewhere i = (refl, λ name. refl)

pub slot_IsElsewhere :
    (i j : ℕ) (rest : SettingPath)
    → strcmp_eq (slot_name j) (slot_name i) ≡ false
    → IsElsewhere (codes "humifier" ∷ codes "scenes" ∷ slot_name j ∷ rest) i
slot_IsElsewhere i j rest other =
    let first = strcmp_eq_refl (codes "humifier") in
    let second = strcmp_eq_refl (codes "scenes") in
    (rw (first, second, other) refl, λ name. rw (first, second, other) refl)

pub HasRoom-scene :
    (i : ℕ) (s : Scene) (settings : SettingMap)
    → HasRoom i settings
    → HasRoom (i + 1) (scene_settings i s settings)
HasRoom-scene i s settings (grouped, free) = (
  find-scene_settings scenes_path i s settings (scenes_path-IsElsewhere i) ∙ grouped,
  λ j l rest.
      find-scene_settings (codes "humifier" ∷ codes "scenes" ∷ slot_name j ∷ rest) i s settings
        (slot_IsElsewhere i j rest (slot_differs i j (omega arith)))
      ∙ free j (omega arith) rest,
)

-- What is no scene's is not changed by the scenes.
pub find-scenes_settings :
    (r : SettingPath) (i : ℕ) (slots : List Scene) (settings : SettingMap)
    → ((j : ℕ) → i ≤ j → IsElsewhere r j)
    → find r (scenes_settings i slots settings) ≡ find r settings
unfolding scenes_settings
find-scenes_settings r i [] settings other = refl
find-scenes_settings r i (s ∷ slots) settings other = elim (Bool-cases (s.ds_id ==ℤ negsuc 0)) [
  | inl unused ↦ rw (unused, scenes_settings) refl
  | inr used ↦
      rw (used, scenes_settings)
        (find-scenes_settings r (i + 1) slots (scene_settings i s settings)
            (λ j l. other j (omega arith))
          ∙ find-scene_settings r i s settings (other i (omega arith)))
]

pub scene_member_differs :
    (i : ℕ) (a b : String)
    → strcmp_eq (codes a) (codes b) ≡ false
    → path_eq (scene_member i a) (scene_member i b) ≡ false
scene_member_differs i a b other =
    rw
      (
        strcmp_eq_refl (codes "humifier"),
        strcmp_eq_refl (codes "scenes"),
        strcmp_eq_refl (slot_name i),
        other,
      )
      refl

pub scene_member_below : (i : ℕ) (a : String) → path_eq (scene_member i a) (scene_path i) ≡ false
scene_member_below i a =
    rw
      (
        strcmp_eq_refl (codes "humifier"),
        strcmp_eq_refl (codes "scenes"),
        strcmp_eq_refl (slot_name i),
      )
      refl

pub scene_path_above : (i : ℕ) (a : String) → path_eq (scene_path i) (scene_member i a) ≡ false
scene_path_above i a =
    rw
      (
        strcmp_eq_refl (codes "humifier"),
        strcmp_eq_refl (codes "scenes"),
        strcmp_eq_refl (slot_name i),
      )
      refl

-- The group of the scene is there and the member is not.
abbrev pub HasFree : ℕ → String → SettingMap → Type 0
HasFree i a settings =
    (find (scene_member i a) settings ≡ none) × (find (scene_path i) settings ≡ some group_setting)

pub HasFree-with_set :
    (i : ℕ) (a b : String) (n : ℤ) (settings : SettingMap)
    → strcmp_eq (codes a) (codes b) ≡ false
    → HasFree i a settings
    → HasFree i a (with_set (scene_member i b) n settings)
HasFree-with_set i a b n settings other (free, grouped) = (
  find-with_set (scene_member i a) (scene_member i b) n settings (scene_member_differs i a b other)
      ∙ free,
  find-with_set (scene_path i) (scene_member i b) n settings (scene_path_above i b) ∙ grouped,
)

pub HasFree-group :
    (i : ℕ) (a : String) (settings : SettingMap)
    → HasRoom i settings
    → HasFree i a ((scene_path i, group_setting) ∷ settings)
HasFree-group i a settings (grouped, free) = (
  rw (scene_member_below i a) (free i (omega arith) (codes a ∷ [])),
  rw (path_eq_refl (scene_path i)) refl,
)

pub HasFree-ds_id :
    (i : ℕ) (a : String) (n : ℤ) (settings : SettingMap)
    → strcmp_eq (codes a) (codes "dsId") ≡ false
    → HasRoom i settings
    → HasFree i a
        ((scene_member i "dsId", int_setting n) ∷ (scene_path i, group_setting) ∷ settings)
HasFree-ds_id i a n settings other (grouped, free) = (
  rw (scene_member_differs i a "dsId" other, scene_member_below i a)
      (free i (omega arith) (codes a ∷ [])),
  rw (scene_path_above i "dsId", path_eq_refl (scene_path i)) refl,
)
