-- ===== src/Config/Write/Holds.antt =====
-- The configuration that `build_config` makes holds the settings of the globals.
use dss_vdc_venta.Config.Write.Stored.{
  HasFree, HasRoom, scene_settings, scenes_settings, HasFree-ds_id, HasFree-with_set, HasFree-group,
  HasRoom-scene,
}
use dss_vdc_venta.Types.{Scene}
use dss_vdc_venta.Config.Write.{write_scene, write_scenes}
use dss_vdc_venta.Prelude.{
  ℕ, String, ap, arith, [], ◌∷◌, List, Bool-cases, ◌==ℤ◌, negsuc, inl, inr, ◌+◌, refl, ◌≡◌, false,
}
use dss_vdc_venta.Config.Lawful.{
  IsLawful, SettingMap, is_group, int_setting, group_setting, with_set,
}
use dss_vdc_venta.Config.Write.Leads.{
  CanAdd, Leads, add_or_get-Leads, then-Leads, put_int-Leads, put_if_set-Leads,
}
use dss_vdc_venta.Config.Libconfig.{Libconfig, scene_member, scene_path, group_kind}
use dss_vdc_venta.CString.{codes, strcmp_eq}

module _ (lib : Libconfig) (law : IsLawful lib) where
  CanAdd-HasFree :
      (i : ℕ) (a : String) (settings : SettingMap)
      → HasFree i a settings
      → CanAdd lib law (scene_member i a) settings
  CanAdd-HasFree i a settings (free, grouped) = (free, ap is_group grouped)

  pub write_scene-Leads :
      (i : ℕ) (s : Scene) (settings : SettingMap)
      → HasRoom i settings
      → Leads lib law (write_scene lib i s) settings (scene_settings i s settings)
  unfolding write_scene strcmp_eq
  write_scene-Leads i s settings room =
      let group = (scene_path i, group_setting) ∷ settings in
      let known = (scene_member i "dsId", int_setting s.ds_id) ∷ group in
      let fan = with_set (scene_member i "fan") s.fan known in
      let sleep = with_set (scene_member i "mode_sleep") s.mode_sleep fan in
      let all = scene_settings i s settings in
      let free = λ (a : String) (other : strcmp_eq (codes a) (codes "dsId") ≡ false).
        HasFree-ds_id i a s.ds_id settings other room in
      let free2 = HasFree-with_set i "mode_sleep" "fan" s.fan known refl (free "mode_sleep" refl) in
      let free3 =
        HasFree-with_set i "mode_automatic" "mode_sleep" s.mode_sleep fan refl (
          HasFree-with_set i "mode_automatic" "fan" s.fan known refl
            (free "mode_automatic" refl)) in
      then-Leads lib law _ _ settings group all
        (add_or_get-Leads lib law (scene_path i) group_kind settings
          (room.1 i (omega arith) [], ap is_group room.0))
        (then-Leads lib law _ _ group known all
          (put_int-Leads lib law (scene_member i "dsId") s.ds_id group
            (CanAdd-HasFree i "dsId" group (HasFree-group i "dsId" settings room)))
          (then-Leads lib law _ _ known fan all
            (put_if_set-Leads lib law (scene_member i "fan") s.fan known
              (CanAdd-HasFree i "fan" known (free "fan" refl)))
            (then-Leads lib law _ _ fan sleep all
              (put_if_set-Leads lib law (scene_member i "mode_sleep") s.mode_sleep fan
                (CanAdd-HasFree i "mode_sleep" fan free2))
              (put_if_set-Leads lib law (scene_member i "mode_automatic") s.mode_automatic sleep
                (CanAdd-HasFree i "mode_automatic" sleep free3)))))

  pub write_scenes-Leads :
      (i : ℕ) (slots : List Scene) (settings : SettingMap)
      → HasRoom i settings
      → Leads lib law (write_scenes lib i slots) settings (scenes_settings i slots settings)
  unfolding write_scenes scenes_settings
  write_scenes-Leads i [] settings room = λ c h. (c, refl, h)
  write_scenes-Leads i (s ∷ slots) settings room = elim (Bool-cases (s.ds_id ==ℤ negsuc 0)) [
    | inl unused ↦ λ c h. rw (unused, write_scenes, scenes_settings) (c, refl, h)
    | inr used ↦
        let after = scene_settings i s settings in
        λ c h.
          rw (used, write_scenes, scenes_settings)
            (then-Leads lib law (write_scene lib i s) (write_scenes lib (i + 1) slots) settings
              after (scenes_settings (i + 1) slots after) (write_scene-Leads i s settings room)
              (write_scenes-Leads (i + 1) slots after (HasRoom-scene i s settings room)) c h)
  ]
