-- ===== src/Tests/Start.antt =====
-- The start of the process, and libcurl's traffic.
use dss_vdc_venta.Prelude.{
  ℕ, ◌+◌, true, false, some, none, List, [], ◌∷◌, ◌≡◌, refl, pos, inr, arith, ◌++◌,
}
use dss_vdc_venta.CString.{codes}
use dss_vdc_venta.Types.{Globals}
use dss_vdc_venta.Config.Read.{regular}
use dss_vdc_venta.Config.Write.{build_config}
use dss_vdc_venta.Config.Write.Files.{done_ops}
use dss_vdc_venta.Config.Write.Total.{build_config-Made}
use dss_vdc_venta.Tests.Fixtures.{globals, lib, lib-IsUsable, address}
use dss_vdc_venta.Main.Start.{
  Argument, cfgfile, debuglevel, help, Settings, Host, ended, read_options, start, cleared,
}
use dss_vdc_venta.Main.Start.Outcomes.{start_keeps_unreadable, start_out_of_memory, IsReady}
use dss_vdc_venta.Network.Dump.{debug_dump}

abbrev pub host : Host lib
host = record {
  sigint_ok = true;
  sigterm_ok = true;
  stat = regular;
  file = some 0;
  device_allocated = true;
  dsuid_of = λ id. codes "D1";
  new_vdc_dsuid = codes "V2";
  new_lib_dsuid = codes "L2";
  written = true;
  values_allocated = true;
  hostname = codes "dss";
  library_ok = true;
  thread_ok = true;
}

abbrev pub arguments : List Argument
arguments = cfgfile (codes "a.cfg") ∷ debuglevel (codes "7") ∷ []

abbrev pub settings : Settings
settings = record { cfgfile_name = codes "venta.cfg"; debug = pos 4 }

abbrev pub chosen : Settings
chosen = record { cfgfile_name = codes "a.cfg"; debug = pos 7 }

pub options_read : read_options arguments settings ≡ some chosen
unfolding read_options
options_read = refl

help_ends : read_options (help ∷ arguments) settings ≡ none
unfolding read_options
help_ends = refl

start_keeps_unreadable_example :
    start lib (record host { file = none }) arguments settings globals
    ≡ some (record { globals = cleared lib (pos 7) globals; ops = []; outcome = ended (pos 0) })
start_keeps_unreadable_example =
    start_keeps_unreadable lib (record host { file = none }) arguments settings chosen options_read
      refl refl globals (inr (refl, refl))

pub host-IsReady : IsReady lib host arguments settings chosen options_read refl refl
host-IsReady = record {
  writable = build_config-Made lib (λ c path kind. (c + 1, refl));
  short_name = omega arith;
  values = refl;
  short_host = omega arith;
  library = refl;
  thread = refl;
}

start_out_of_memory_example :
    (g' : Globals) × (c' : ℕ) × (start lib
        (record host { device_allocated = false })
        arguments
        settings
        globals
      ≡ some (record {
        globals = g';
        ops = done_ops lib true (codes "a.cfg") c';
        outcome = ended (pos 0);
      }))
    × (g'.humifier.ip ≡ some address)
    × (build_config lib g' ≡ some c')
start_out_of_memory_example =
    start_out_of_memory lib (record host { device_allocated = false }) arguments settings chosen
      options_read refl refl 0 address address globals lib-IsUsable refl refl refl
      (build_config-Made lib (λ c path kind. (c + 1, refl))) (omega arith)

two_lines :
    debug_dump [] (codes "ab" ++ 13 ∷ 10 ∷ codes "c") true
    ≡ some (record {
      text = [];
      size = 5;
      lines =
          record { offset = 0; hex = []; chars = codes "ab" }
          ∷ record { offset = 4; hex = []; chars = codes "c" }
          ∷ [];
    })
unfolding debug_dump
two_lines = refl
