-- ===== src/Config/RoundTrip/Table.antt =====
-- The scene table of a written configuration, as `read_config` reads it.
use dss_vdc_venta.Config.Read.Scenes.{append_scene-short, read_scenes_step, regroup}
use dss_vdc_venta.Scenes.Loaded.{scene_fields}
use dss_vdc_venta.CString.Search.{fields}
use dss_vdc_venta.CString.{codes, Bytes, print_int}
use dss_vdc_venta.Config.RoundTrip.Scenes.{kept, scene_settings-SceneSettings, int_of-kept}
use dss_vdc_venta.Config.Lawful.{SettingMap, IsLawful, find, slot_differs_later, is_there, int_at}
use dss_vdc_venta.Config.Read.{
  or_else, unconfigured, read_scene, read_scenes, or_stale, append_scene,
}
use dss_vdc_venta.Config.Libconfig.{Libconfig, SettingPath, slot_name, scene_path, scene_member}
use dss_vdc_venta.Config.Write.Stored.{
  scenes_settings, HasRoom, scene_settings, find-scenes_settings, slot_IsElsewhere, HasRoom-scene,
}
use dss_vdc_venta.Prelude.{
  ℤ, List, ℕ, if◌then◌else◌, map, ◌≡◌, ltb_ℤ, pos, All, ◌∷◌, ◌≤◌, Option, [], negsuc, ◌<◌, ◌+◌,
  Bool-cases, refl, some, length, inl, ◌∙◌, ◌++◌, inr, ap, arith, sym, append-nil, false, ◌==ℤ◌,
  true,
}
use dss_vdc_venta.Types.{Scene}

-- A value after it was written and read: what is negative comes back as -1.
abbrev pub settled : ℤ → ℤ
settled n = if ltb_ℤ (negsuc 0) n then n else negsuc 0

-- A slot that a written scene is read into.
abbrev pub restored : Scene → Scene → Scene
restored w s = record s {
  ds_id = w.ds_id;
  fan = settled w.fan;
  mode_automatic = settled w.mode_automatic;
  mode_sleep = settled w.mode_sleep;
}

-- The slots after the scenes are read into them.
abbrev pub restored_table : List Scene → List Scene → List Scene
restored_table [] slots = map unconfigured slots
restored_table (w ∷ written) [] = []
restored_table (w ∷ written) (s ∷ slots) = restored w s ∷ restored_table written slots

or_else-kept : (n : ℤ) → or_else (kept n) (negsuc 0) ≡ settled n
or_else-kept n = elim (Bool-cases (ltb_ℤ (negsuc 0) n)) [
  | inl set ↦ rw set refl
  | inr unset ↦ rw unset refl
]

abbrev pub IsShort : Scene → Type 0
IsShort s = (n : ℕ) × (s.ds_id ≡ pos n) × (n < 100)

scenes_settings_unused :
    (i : ℕ) (free : List Scene) (settings : SettingMap)
    → All (λ s. s.ds_id ≡ negsuc 0) free
    → scenes_settings i free settings ≡ settings
unfolding scenes_settings
scenes_settings_unused i [] settings h = refl
scenes_settings_unused i (s ∷ free) settings h = rw (h.0, scenes_settings) refl

scenes_settings_used :
    (i : ℕ) (s : Scene) (slots : List Scene) (settings : SettingMap)
    → (s.ds_id ==ℤ negsuc 0) ≡ false
    → scenes_settings i (s ∷ slots) settings
      ≡ scenes_settings (i + 1) slots (scene_settings i s settings)
unfolding scenes_settings
scenes_settings_used i s slots settings used = rw (used, scenes_settings) refl

IsShort-used : (s : Scene) → IsShort s → (s.ds_id ==ℤ negsuc 0) ≡ false
IsShort-used s (n, e, small) = rw e refl

-- A scene is not hidden by the scenes behind it.
find_behind :
    (i : ℕ) (rest : SettingPath) (slots : List Scene) (settings : SettingMap)
    → find
        (codes "humifier" ∷ codes "scenes" ∷ slot_name i ∷ rest)
        (scenes_settings (i + 1) slots settings)
      ≡ find (codes "humifier" ∷ codes "scenes" ∷ slot_name i ∷ rest) settings
find_behind i rest slots settings =
    find-scenes_settings (codes "humifier" ∷ codes "scenes" ∷ slot_name i ∷ rest) (i + 1) slots
      settings (λ j l. slot_IsElsewhere j i rest (slot_differs_later i j (omega arith)))

module _ (lib : Libconfig) (law : IsLawful lib) where
  open lib use {Config, lookup, lookup_int}

  -- The configuration says of the scenes from an index on what the settings say.
  abbrev pub Agrees : Config → ℕ → SettingMap → Type 0
  Agrees c i settings =
      (j : ℕ) (rest : SettingPath)
      → i ≤ j
      → law.view c (codes "humifier" ∷ codes "scenes" ∷ slot_name j ∷ rest)
        ≡ find (codes "humifier" ∷ codes "scenes" ∷ slot_name j ∷ rest) settings

  -- The variable after a scene is read.
  left_over : Scene → Option ℤ
  left_over s =
      or_stale (kept s.mode_sleep)
        (or_stale (kept s.mode_automatic) (or_stale (kept s.fan) (some s.ds_id)))

  read_scene-restored :
      (c : Config) (i : ℕ) (iv : Option ℤ) (w s : Scene) (settings : SettingMap)
      → HasRoom i settings
      → ((rest : SettingPath)
          → law.view c (codes "humifier" ∷ codes "scenes" ∷ slot_name i ∷ rest)
            ≡ find
                (codes "humifier" ∷ codes "scenes" ∷ slot_name i ∷ rest)
                (scene_settings i w settings))
      → read_scene lib c i iv s ≡ some (restored w s, left_over w)
  unfolding read_scene left_over
  read_scene-restored c i iv w s settings room here =
      let t = scene_settings-SceneSettings i w settings room in
      let ds_id : lookup_int c (scene_member i "dsId") ≡ some w.ds_id =
        int_at lib law c _ _ (here (codes "dsId" ∷ []) ∙ t.ds_id) in
      let fan : lookup_int c (scene_member i "fan") ≡ kept w.fan =
        int_at lib law c _ _ (here (codes "fan" ∷ []) ∙ t.fan) ∙ int_of-kept w.fan in
      let sleep : lookup_int c (scene_member i "mode_sleep") ≡ kept w.mode_sleep =
        int_at lib law c _ _ (here (codes "mode_sleep" ∷ []) ∙ t.sleep)
        ∙ int_of-kept w.mode_sleep in
      let automatic : lookup_int c (scene_member i "mode_automatic") ≡ kept w.mode_automatic =
        int_at lib law c _ _ (here (codes "mode_automatic" ∷ []) ∙ t.automatic)
        ∙ int_of-kept w.mode_automatic in
      rw
        (
          ds_id,
          fan,
          sleep,
          automatic,
          or_else-kept w.fan,
          or_else-kept w.mode_sleep,
          or_else-kept w.mode_automatic,
        )
        refl

  -- The loop over the slots finds the written scenes, and then no other.
  pub read_scenes-restored :
      (c : Config) (i : ℕ) (iv : Option ℤ) (text : Bytes) (written free slots : List Scene)
      (settings : SettingMap)
      → HasRoom i settings
      → All IsShort written
      → All (λ s. s.ds_id ≡ negsuc 0) free
      → length written ≤ length slots
      → Agrees c i (scenes_settings i (written ++ free) settings)
      → read_scenes lib c i iv text slots
        ≡ some (restored_table written slots, text ++ fields (scene_fields written))
  unfolding read_scenes
  read_scenes-restored c i iv text [] free [] settings room short unused fits agrees =
      ap (λ (t : Bytes). some ([], t)) (sym (append-nil text))
  read_scenes-restored c i iv text [] free (s ∷ slots) settings room short unused fits agrees =
      let absent : lookup c (scene_path i) ≡ false =
        law.lookup_law c (scene_path i)
        ∙ ap is_there (
            agrees i [] (omega arith)
            ∙ ap (find (scene_path i)) (scenes_settings_unused i free settings unused)
            ∙ room.1 i (omega arith) []) in
      rw (absent, read_scenes)
        (ap (λ (t : Bytes). some (map unconfigured (s ∷ slots), t)) (sym (append-nil text)))
  read_scenes-restored c i iv text (w ∷ written) free [] settings room short unused fits agrees =
      absurd (omega arith)
  read_scenes-restored c i iv text (w ∷ written) free (s ∷ slots) settings room short unused fits
        agrees =
      let next = scene_settings i w settings in
      let (n, number, small) = short.0 in
      let text' = text ++ (print_int w.ds_id ++ b'-' ∷ []) in
      let used : (w.ds_id ==ℤ negsuc 0) ≡ false = IsShort-used w short.0 in
      let same = scenes_settings_used i w (written ++ free) settings used in
      let here = λ (rest : SettingPath).
        agrees i rest (omega arith)
        ∙ ap (find (codes "humifier" ∷ codes "scenes" ∷ slot_name i ∷ rest)) same
        ∙ find_behind i rest (written ++ free) next in
      let there : lookup c (scene_path i) ≡ true =
        law.lookup_law c (scene_path i)
        ∙ ap is_there (here [] ∙ (scene_settings-SceneSettings i w settings room).group) in
      let appended : append_scene text w.ds_id ≡ some text' =
        rw number (append_scene-short text n small) in
      let rest =
        read_scenes-restored c (i + 1) (left_over w) text' written free slots next
          (HasRoom-scene i w settings room) short.1 unused (omega arith)
          (λ j rest l.
            agrees j rest (omega arith)
            ∙ ap (find (codes "humifier" ∷ codes "scenes" ∷ slot_name j ∷ rest)) same) in
      read_scenes_step lib c i iv (left_over w) text text' s (restored w s) slots
        (restored_table written slots) (text' ++ fields (scene_fields written)) there
        (read_scene-restored c i iv w s settings room here) appended rest
      ∙ ap (λ (t : Bytes). some (restored_table (w ∷ written) (s ∷ slots), t))
          (regroup text (print_int w.ds_id) (fields (scene_fields written)))
