-- ===== src/System/FromStart.antt =====
-- From the command line to any sequence of events.
use dss_vdc_venta.Main.NetworkThread.{Poller}
use dss_vdc_venta.CString.{Bytes}
use dss_vdc_venta.Prelude.{length, ◌≡◌, false, ◌≤◌, pos, some}
use dss_vdc_venta.Config.Libconfig.{Libconfig, sensor_path, humifier_path}
use dss_vdc_venta.Types.{Globals}

-- What the configuration has to say beside what the start relies on: a name, fewer sensors than
-- slots, and short texts.
pub record IsComplete (lib : Libconfig) (c : lib.Config) (ip name : Bytes) : Type 0 where
  pub named : lib.lookup_string c (humifier_path "name") ≡ some name
  pub last_free : lib.lookup c (sensor_path 14) ≡ false
  pub short_name : length name ≤ 240
  pub short_ip : length ip ≤ 83

abbrev pub network_started : Globals → Poller
network_started g = record { globals = g; last = pos 0 }
