-- ===== src/Network/Commands/Leading.antt =====
-- What the humifier's commands lead to, where a request for the values leads from P to Q.
use dss_vdc_venta.Prelude.{◌≡◌, ℤ, Bool, Option, if◌then◌else◌, some, none, pos, ◌∷◌, [], List}
use dss_vdc_venta.Network.Action.{◌>>=◌, ◌>>◌, pure, gets}
use dss_vdc_venta.Network.Action.Leads.{
  Leads, IgnoresPosts, Leads-pure, Leads-gets, Leads-check, Leads-if, Leads-bind,
}
use dss_vdc_venta.Network.Http.{Env, http_post}
use dss_vdc_venta.Network.Json.{JsonC}
use dss_vdc_venta.Network.Commands.{
  url_of, post_button, venta_set_fan, venta_get_data, venta_set_mode_sleep,
  venta_set_mode_automatic, differs, button_result,
}
use dss_vdc_venta.Types.{Globals, Thread}
use dss_vdc_venta.CString.{Bytes, codes}

module _ (env : Env) {P : Globals → Type 0} (posts : IgnoresPosts P) where
  pub http_post-Leads :
      (url : Bytes) (body : Option (List (Bytes × ℤ))) → Leads P P (http_post env url body)
  unfolding http_post
  http_post-Leads url body = record {
    kept = λ b g g' o e.
        let same : record g { posts = g'.posts } ≡ g' = cc e in rw (← same) (posts g g'.posts o);
  }

  post_button-Leads : (url : Bytes) (btn : ℤ) → Leads P P (post_button env url btn)
  unfolding post_button
  post_button-Leads url btn =
      Leads-bind _ _ (http_post-Leads url (some ((codes "btn", btn) ∷ [])))
        (λ r. Leads-pure (button_result r))

  pub venta_set_fan-Leads : (btn : ℤ) → Leads P P (venta_set_fan env btn)
  unfolding venta_set_fan
  venta_set_fan-Leads btn = Leads-bind _ _ (Leads-gets (λ g. g.humifier.ip)) (λ ip.
      Leads-bind _ _ (Leads-check (url_of (codes "/api/btn") ip))
        (λ url. post_button-Leads url btn))

module _ (env : Env) (json : JsonC) (thread : Thread) {P Q : Globals → Type 0}
    (posts : IgnoresPosts Q) (data_read : Leads P Q (venta_get_data env json thread)) where
  -- A command that reads the values and then presses a button or not, by a mode it has read.
  reads_then_toggles-Leads :
      (btn : ℤ) (on : Bool) (mode_of : Globals → ℤ) (url : Bytes)
      → Leads P Q (
          venta_get_data env json thread
          >> (gets mode_of >>= λ mode.
              if differs mode on then post_button env url btn else pure none))
  reads_then_toggles-Leads btn on mode_of url = Leads-bind _ _ data_read (λ rc.
      Leads-bind _ _ (Leads-gets mode_of) (λ mode.
        Leads-if (differs mode on) _ _ (post_button-Leads env posts url btn) (Leads-pure none)))

  pub venta_set_mode_sleep-Leads : (on : Bool) → Leads P Q (venta_set_mode_sleep env json thread on)
  unfolding venta_set_mode_sleep
  venta_set_mode_sleep-Leads on = Leads-bind _ _ (Leads-gets (λ g. g.humifier.ip)) (λ ip.
      Leads-bind _ _ (Leads-check (url_of (codes "/api/btn") ip))
        (reads_then_toggles-Leads (pos 5) on (λ g. g.current_values.mode_sleep)))

  pub venta_set_mode_automatic-Leads :
      (on : Bool) → Leads P Q (venta_set_mode_automatic env json thread on)
  unfolding venta_set_mode_automatic
  venta_set_mode_automatic-Leads on = Leads-bind _ _ (Leads-gets (λ g. g.humifier.ip)) (λ ip.
      Leads-bind _ _ (Leads-check (url_of (codes "/api/btn") ip))
        (reads_then_toggles-Leads (pos 6) on (λ g. g.current_values.mode_automatic)))
