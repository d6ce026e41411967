-- ===== src/Main/Signals.antt =====
-- The signals of venta/main.c: SIGINT and SIGTERM raise the flag that ends both loops.
use dss_vdc_venta.Prelude.{◌+◌}
use dss_vdc_venta.Types.{Globals}

pub data Signal : Type 0 where
  sigint sigterm other_signal : Signal

unfoldable pub signal_handler : Signal → Globals → Globals
signal_handler other_signal g = g
signal_handler _ g = record g { shutdown_flag = g.shutdown_flag + 1 }
