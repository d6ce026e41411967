-- ===== src/Config/Write/Files.antt =====
-- What writing the configuration does to the files.
use dss_vdc_venta.CString.Search.{strcmp_eq_refl}
use dss_vdc_venta.Prelude.{
  Option, some, List, Bool, if◌then◌else◌, none, ◌∷◌, ◌++◌, true, [], ◌≡◌, ◌&&◌, not, false, pos,
  arith, refl, leb, length, ◌+◌, ◌≤◌, length-append,
}
use dss_vdc_venta.Config.Libconfig.{Libconfig}
use dss_vdc_venta.Config.Write.{
  FileOp, write_file, unlink, rename, build_config, write_config, Option, false,
}
use dss_vdc_venta.CString.{Bytes, codes, strcmp_eq}
use dss_vdc_venta.Types.{Globals}

module _ (lib : Libconfig) where
  open lib use {Config}

  -- Files by their names; a configuration that is written badly is not one (`none`).
  abbrev pub Files : Type 0
  Files = Bytes → Option Config

  abbrev pub updated : Files → Bytes → Option Config → Files
  updated files name content other = if strcmp_eq name other then content else files other

  -- Whether a rename and an unlink succeed is the system's; the program does not look at it. A file
  -- that is not renamed or unlinked stays.
  abbrev pub run_op : Bool → Bool → FileOp lib → Files → Files
  run_op renamed unlinked (write_file name c true) files = updated files name (some c)
  run_op renamed unlinked (write_file name c false) files = updated files name none
  run_op renamed unlinked (unlink name) files = if unlinked then updated files name none else files
  run_op renamed unlinked (rename from to) files =
      if renamed then updated (updated files from none) to (files from) else files

  abbrev pub run_ops : Bool → Bool → List (FileOp lib) → Files → Files
  run_ops renamed unlinked [] files = files
  run_ops renamed unlinked (op ∷ ops) files =
      run_ops renamed unlinked ops (run_op renamed unlinked op files)

  not_suffixed : (name : Bytes) → strcmp_eq (name ++ codes ".cfg.new") name ≡ false
  unfolding strcmp_eq
  not_suffixed [] = refl
  not_suffixed (c ∷ name) = ground (arith, not_suffixed name)

  not_prefix : (name : Bytes) → strcmp_eq name (name ++ codes ".cfg.new") ≡ false
  unfolding strcmp_eq
  not_prefix [] = refl
  not_prefix (c ∷ name) = ground (arith, not_prefix name)

  abbrev pub done_ops : Bool → Bytes → Config → List (FileOp lib)
  done_ops written file c =
      let tmp = file ++ codes ".cfg.new" in
      write_file tmp c written ∷ (if written then rename tmp file ∷ [] else unlink tmp ∷ [])

  module _ (renamed unlinked : Bool) (file : Bytes) (c : Config) (files : Files) where
    abbrev done_to : Bool → Files
    done_to written = run_ops renamed unlinked (done_ops written file c) files

    done_ops_at_file :
        (written : Bool)
        → done_to written file ≡ (if written && renamed then some c else files file)
    done_ops_at_file true =
        ground
          (arith, not_suffixed file, strcmp_eq_refl file, strcmp_eq_refl (file ++ codes ".cfg.new"))
    done_ops_at_file false = ground (arith, not_suffixed file)

    done_ops_at_tmp :
        (written : Bool)
        → done_to written (file ++ codes ".cfg.new")
          ≡ (if written && not renamed then some c else none)
    done_ops_at_tmp true =
        ground (arith, not_prefix file, strcmp_eq_refl (file ++ codes ".cfg.new"))
    done_ops_at_tmp false = ground (arith, strcmp_eq_refl (file ++ codes ".cfg.new"))

    done_ops_elsewhere :
        (written : Bool) (other : Bytes)
        → strcmp_eq file other ≡ false
        → strcmp_eq (file ++ codes ".cfg.new") other ≡ false
        → done_to written other ≡ files other
    done_ops_elsewhere true other p q = ground arith
    done_ops_elsewhere false other p q = ground arith

  -- A configuration that can be built is written: what is done to the files, and the result 0.
  pub write_config-returns :
      (written : Bool) (cfgfile : Bytes) (g : Globals) (c : Config)
      → build_config lib g ≡ some c
      → length cfgfile ≤ 4087
      → write_config lib written cfgfile g ≡ some (pos 0, done_ops written cfgfile c)
  unfolding write_config
  write_config-returns written cfgfile g c built short =
      let fits : leb (length (cfgfile ++ codes ".cfg.new") + 1) 4096 ≡ true =
        ground (arith, length-append cfgfile (codes ".cfg.new")) in
      simp (built, fits)

  -- With a configuration that can be built and a file name of at most 4087 bytes, writing returns, and
  -- reports success in any case. The file holds the new configuration where both the write and the
  -- rename succeed, and is as it was otherwise. Where the write succeeds and the rename fails, the
  -- new configuration is left in the temporary file; otherwise no configuration is there. Any other
  -- file is as it was.
  pub write_config_files :
      (written renamed unlinked : Bool) (cfgfile : Bytes) (g : Globals) (c : Config) (files : Files)
      (other : Bytes)
      → build_config lib g ≡ some c
      → length cfgfile ≤ 4087
      → strcmp_eq cfgfile other ≡ false
      → strcmp_eq (cfgfile ++ codes ".cfg.new") other ≡ false
      → (ops : List (FileOp lib)) × (write_config lib written cfgfile g ≡ some (pos 0, ops))
        × (run_ops renamed unlinked ops files cfgfile
            ≡ (if written && renamed then some c else files cfgfile))
        × (run_ops renamed unlinked ops files (cfgfile ++ codes ".cfg.new")
            ≡ (if written && not renamed then some c else none))
        × (run_ops renamed unlinked ops files other ≡ files other)
  write_config_files written renamed unlinked cfgfile g c files other built short apart apart_tmp =
      (
        done_ops written cfgfile c,
        write_config-returns written cfgfile g c built short,
        done_ops_at_file renamed unlinked cfgfile c files written,
        done_ops_at_tmp renamed unlinked cfgfile c files written,
        done_ops_elsewhere renamed unlinked cfgfile c files written other apart apart_tmp,
      )
