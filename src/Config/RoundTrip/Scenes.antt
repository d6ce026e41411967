-- ===== src/Config/RoundTrip/Scenes.antt =====
-- The scenes of a written configuration, as `read_config` reads them.
use dss_vdc_venta.Config.Write.Stored.{
  HasRoom, scene_settings, find-with_set, scene_member_differs, scene_path_above, HasFree-ds_id,
}
use dss_vdc_venta.Config.Lawful.{
  int_of, SettingMap, Setting, find, with_set, int_setting, group_setting, path_eq_refl,
}
use dss_vdc_venta.CString.{strcmp_eq, codes}
use dss_vdc_venta.Config.Libconfig.{SettingPath, scene_path, scene_member}
use dss_vdc_venta.Prelude.{
  ℤ, ℕ, Option, String, if◌then◌else◌, ◌≡◌, ltb_ℤ, Bool-cases, none, false, negsuc, some, inl, inr,
  ◌∷◌, refl, ◌∙◌,
}
use dss_vdc_venta.Types.{Scene}

-- A value that is written only if it is not negative.
abbrev pub kept : ℤ → Option ℤ
kept n = if ltb_ℤ (negsuc 0) n then some n else none

abbrev pub kept_setting : ℤ → Option Setting
kept_setting n = if ltb_ℤ (negsuc 0) n then some (int_setting n) else none

pub int_of-kept : (n : ℤ) → int_of (kept_setting n) ≡ kept n
int_of-kept n = elim (Bool-cases (ltb_ℤ (negsuc 0) n)) [
  | inl set ↦ rw set refl
  | inr unset ↦ rw unset refl
]

-- What the settings of one scene say.
pub record SceneSettings (i : ℕ) (s : Scene) (look : SettingPath → Option Setting) : Type 0 where
  pub group : look (scene_path i) ≡ some group_setting
  pub ds_id : look (scene_member i "dsId") ≡ some (int_setting s.ds_id)
  pub fan : look (scene_member i "fan") ≡ kept_setting s.fan
  pub sleep : look (scene_member i "mode_sleep") ≡ kept_setting s.mode_sleep
  pub automatic : look (scene_member i "mode_automatic") ≡ kept_setting s.mode_automatic

find-with_set_same :
    (p : SettingPath) (n : ℤ) (settings : SettingMap)
    → find p settings ≡ none
    → find p (with_set p n settings) ≡ kept_setting n
find-with_set_same p n settings free = elim (Bool-cases (ltb_ℤ (negsuc 0) n)) [
  | inl set ↦ rw (set, path_eq_refl p) refl
  | inr unset ↦ rw unset free
]

find_member :
    (i : ℕ) (a b : String) (n : ℤ) (settings : SettingMap)
    → strcmp_eq (codes a) (codes b) ≡ false
    → find (scene_member i a) (with_set (scene_member i b) n settings)
      ≡ find (scene_member i a) settings
find_member i a b n settings other =
    find-with_set (scene_member i a) (scene_member i b) n settings
      (scene_member_differs i a b other)

pub scene_settings-SceneSettings :
    (i : ℕ) (s : Scene) (settings : SettingMap)
    → HasRoom i settings
    → SceneSettings i s (λ p. find p (scene_settings i s settings))
unfolding strcmp_eq
scene_settings-SceneSettings i s settings room =
    let known =
      (scene_member i "dsId", int_setting s.ds_id) ∷ (scene_path i, group_setting) ∷ settings in
    let fan = with_set (scene_member i "fan") s.fan known in
    let sleep = with_set (scene_member i "mode_sleep") s.mode_sleep fan in
    record {
      group =
          find-with_set (scene_path i) (scene_member i "mode_automatic") s.mode_automatic sleep
            (scene_path_above i "mode_automatic")
          ∙ find-with_set (scene_path i) (scene_member i "mode_sleep") s.mode_sleep fan
              (scene_path_above i "mode_sleep")
          ∙ find-with_set (scene_path i) (scene_member i "fan") s.fan known
              (scene_path_above i "fan")
          ∙ (HasFree-ds_id i "fan" s.ds_id settings refl room).1;
      ds_id =
          find_member i "dsId" "mode_automatic" s.mode_automatic sleep refl
          ∙ find_member i "dsId" "mode_sleep" s.mode_sleep fan refl
          ∙ find_member i "dsId" "fan" s.fan known refl
          ∙ rw (path_eq_refl (scene_member i "dsId")) refl;
      fan =
          find_member i "fan" "mode_automatic" s.mode_automatic sleep refl
          ∙ find_member i "fan" "mode_sleep" s.mode_sleep fan refl
          ∙ find-with_set_same (scene_member i "fan") s.fan known
              (HasFree-ds_id i "fan" s.ds_id settings refl room).0;
      sleep =
          find_member i "mode_sleep" "mode_automatic" s.mode_automatic sleep refl
          ∙ find-with_set_same (scene_member i "mode_sleep") s.mode_sleep fan (
              find_member i "mode_sleep" "fan" s.fan known refl
              ∙ (HasFree-ds_id i "mode_sleep" s.ds_id settings refl room).0);
      automatic = find-with_set_same (scene_member i "mode_automatic") s.mode_automatic sleep (
          find_member i "mode_automatic" "mode_sleep" s.mode_sleep fan refl
          ∙ find_member i "mode_automatic" "fan" s.fan known refl
          ∙ (HasFree-ds_id i "mode_automatic" s.ds_id settings refl room).0);
    }
