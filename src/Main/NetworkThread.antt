-- ===== src/Main/NetworkThread.antt =====
-- One round of the loop of `networkThread` in venta/main.c, behind its `sleep`.
use dss_vdc_venta.Prelude.{
  ℤ, List, Option, if◌then◌else◌, some, none, ◌==ℤ◌, leb_ℤ, pos, ◌+ℤ◌, true, [], false, ◌∷◌,
}
use dss_vdc_venta.Network.Http.{Env}
use dss_vdc_venta.Network.Json.{JsonC}
use dss_vdc_venta.Network.Commands.{venta_get_data}
use dss_vdc_venta.Types.{Globals, network_thread}
use dss_vdc_venta.CString.{Bytes}

-- The static variable `last` of the thread beside the globals.
pub record Poller : Type 0 where
  pub globals : Globals
  pub last : ℤ

-- The texts that `dsvdc_send_pong` is called with.
abbrev pub Pongs : Type 0
Pongs = List Bytes

-- What the result of `venta_get_data` leads to; `later` is the time that is read anew after a
-- failure. The device's text is read through its pointer then.
unfoldable pub after_poll : ℤ → ℤ → ℤ → Globals → Option (Poller × Pongs)
after_poll now later rc g =
    if rc ==ℤ pos 0
    then some (
      record {
        globals = record g { query_values_time = g.reload_values +ℤ now; network_changes = true };
        last = now;
      },
      [],
    )
    else if rc ==ℤ pos 1
    then some (
      record {
        globals = record g { query_values_time = g.reload_values +ℤ now; network_changes = false };
        last = now;
      },
      [],
    )
    else elim g.device [
      | none ↦ none
      | some d ↦ some (
        record {
          globals = record g { query_values_time = pos 60 +ℤ later; network_changes = false };
          last = later;
        },
        d.dsuidstring ∷ [],
      )
    ]

abbrev pub polled : ℤ → ℤ → Option (ℤ × Globals) → Option (Poller × Pongs)
polled now later none = none
polled now later (some (rc, g)) = after_poll now later rc g

module _ (env : Env) (json : JsonC) where
  unfoldable pub network_round : ℤ → ℤ → Poller → Option (Poller × Pongs)
  unfolding after_poll
  network_round now later p =
      if leb_ℤ (p.last +ℤ pos 10) now
      then if leb_ℤ p.globals.query_values_time now
        then polled now later (venta_get_data env json network_thread p.globals)
        else some (record p { last = now }, [])
      else some (p, [])
