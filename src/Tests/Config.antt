-- ===== src/Tests/Config.antt =====
-- Reading and writing the configuration.
use dss_vdc_venta.Prelude.{false, pos, some, List, true, ◌≡◌, none, ◌∷◌, refl, arith, []}
use dss_vdc_venta.Tests.Fixtures.{globals, lib, lib-IsNumbered, lib-IsUsable, address, humifier}
use dss_vdc_venta.Types.{Globals}
use dss_vdc_venta.CString.{codes, strcmp_eq}
use dss_vdc_venta.Config.Read.{append_scene, read_config, regular, returned}
use dss_vdc_venta.Config.Read.Scenes.{Table, read_scenes-Table, append_scene_overflow}
use dss_vdc_venta.Config.Read.Startup.{Started, read_config-Started}
use dss_vdc_venta.Config.Write.{FileOp, write_file, rename, build_config, write_config}
use dss_vdc_venta.Config.Write.Files.{run_ops, write_config_files}

append_scene_overflow_at_input : append_scene (codes "-5-") (pos 100) ≡ none
append_scene_overflow_at_input = append_scene_overflow (codes "-5-") 100 (omega arith)

read_scenes-Table_example : Table lib 0 0 (some (pos 7)) (codes "-") humifier.scenes
read_scenes-Table_example =
    read_scenes-Table lib 0 lib-IsNumbered 0 (some (pos 7)) (codes "-") humifier.scenes

read_config-Started_example :
    (g' : Globals) × (read_config lib regular (some 0) true (λ id. codes "D1") globals
      ≡ some (returned (pos 0), g'))
    × Started lib 0 address address (λ id. codes "D1") globals g'
read_config-Started_example =
    read_config-Started lib 0 address address (λ id. codes "D1") globals lib-IsUsable

abbrev ops : List (FileOp lib)
ops =
    write_file (codes "venta.cfg.cfg.new") 22 true
    ∷ rename (codes "venta.cfg.cfg.new") (codes "venta.cfg")
    ∷ []

built : build_config lib globals ≡ some 22
unfolding build_config
built = refl

wrote : write_config lib true (codes "venta.cfg") globals ≡ some (pos 0, ops)
unfolding write_config
wrote = refl

write_config_files_example :
    (ops : List (FileOp lib)) × (write_config lib true (codes "venta.cfg") globals
      ≡ some (pos 0, ops))
    × (run_ops lib false true ops (λ name. none) (codes "venta.cfg") ≡ none)
    × (run_ops lib false true ops (λ name. none) (codes "venta.cfg.cfg.new") ≡ some 22)
    × (run_ops lib false true ops (λ name. none) (codes "README.md") ≡ none)
unfolding strcmp_eq
write_config_files_example =
    write_config_files lib true false true (codes "venta.cfg") globals 22 (λ name. none)
      (codes "README.md") built (omega arith) refl refl
