-- ===== src/Network/Commands/Buttons.antt =====
-- Which buttons the commands press.
use dss_vdc_venta.Prelude.{
  ◌++◌, ℤ, length, ◌∷◌, Bool, ◌≤◌, [], truth, ◌≡◌, ℕ, ◌≢◌, false, some, true, arith, none, Option,
  pos, if◌then◌else◌, ◌∙◌, refl, ap,
}
use dss_vdc_venta.Network.Action.{◌>>=◌, ◌>>◌, pure, gets}
use dss_vdc_venta.Network.Http.{Env, MemoryStruct, response_of, http_post, performed, is_refused}
use dss_vdc_venta.Network.Json.{JsonC}
use dss_vdc_venta.Network.Parse.{parse_json_data}
use dss_vdc_venta.Network.Commands.{
  connect_failed, button_result, post_button, venta_set_fan, get_data_result, venta_get_data,
  differs, venta_set_mode_sleep, venta_set_mode_automatic, ℤ, Bool, truth, some, none, Option, pos,
}
use dss_vdc_venta.Network.Safe.{data_request, button_request, url_text}
use dss_vdc_venta.Network.Commands.Safety.{url_of-short}
use dss_vdc_venta.Types.{Globals, Request, Thread}
use dss_vdc_venta.CString.{Bytes, codes}

-- The state after one more request.
abbrev pub after_request : Request → Globals → Globals
after_request r g = record g { posts = g.posts ++ r ∷ [] }

differs_when : (mode : ℤ) (on : Bool) → truth mode ≢ on → differs mode on ≡ true
differs_when mode on h = ground arith

differs_not : (mode : ℤ) (on : Bool) → truth mode ≡ on → differs mode on ≡ false
differs_not mode on h = ground arith

module _ (env : Env) (ip : Bytes) (short : length ip ≤ 83) where
  -- With an address of at most 83 bytes, setting the fan sends the button once and changes nothing
  -- else; what it returns says whether the request failed.
  pub venta_set_fan_presses :
      (btn : ℤ) (g : Globals)
      → g.humifier.ip ≡ some ip
      → let g' = after_request (button_request ip btn) g in
        venta_set_fan env btn g ≡ some (button_result (response_of (env.attempt g'.posts)), g')
  unfolding venta_set_fan post_button http_post
  venta_set_fan_presses btn g e = simp (e, url_of-short (codes "/api/btn") ip (omega arith) short)

  module _ (json : JsonC) (thread : Thread) (on : Bool) (g g' : Globals) (rc : ℤ)
      (address : g.humifier.ip ≡ some ip)
      (got : venta_get_data env json thread g ≡ some (rc, g')) where
    abbrev read_then : ℤ → (Globals → ℤ) → Option (Option ℤ × Globals)
    read_then btn mode_of =
        (venta_get_data env json thread
            >> (gets mode_of >>= λ mode.
                if differs mode on
                then post_button env (url_text (codes "/api/btn") ip) btn
                else pure none))
          g

    read_then-end :
        (btn : ℤ) (mode_of : Globals → ℤ)
        → read_then btn mode_of
          ≡ (if differs (mode_of g') on
                then post_button env (url_text (codes "/api/btn") ip) btn
                else pure none)
              g'
    read_then-end btn mode_of = rw (got, ◌>>=◌) refl

    -- A request for the values that fails changes no value.
    failed_request :
        response_of (env.attempt (after_request (data_request ip) g).posts) ≡ none
        → g' ≡ after_request (data_request ip) g
    unfolding venta_get_data http_post get_data_result
    failed_request failed =
        let asked : venta_get_data env json thread g
            ≡ get_data_result env json thread
                (response_of (env.attempt (after_request (data_request ip) g).posts))
                (after_request (data_request ip) g) =
          rw (address, url_of-short (codes "/api/data") ip (omega arith) short) refl in
        let kept : venta_get_data env json thread g
            ≡ some (connect_failed, after_request (data_request ip) g) =
          asked
          ∙ ap
              (λ (o : Option MemoryStruct).
                get_data_result env json thread o (after_request (data_request ip) g))
              failed in
        cc (got, kept)

    -- Where the request for the values returns, whatever its result: the mode button 5 is pressed
    -- exactly if the sleep mode that is stored after it is not the one that is wanted, and nothing
    -- else is done after that request. Where the request fails, the stored mode is the old one, by
    -- which the button is pressed or not all the same.
    pub venta_set_mode_sleep_toggles :
        (truth g'.current_values.mode_sleep ≡ on
          → venta_set_mode_sleep env json thread on g ≡ some (none, g'))
        × (truth g'.current_values.mode_sleep ≢ on
            → (r : Option ℤ) × (venta_set_mode_sleep env json thread on g
                ≡ some (r, after_request (button_request ip (pos 5)) g')))
        × (response_of (env.attempt (after_request (data_request ip) g).posts) ≡ none
            → g' ≡ after_request (data_request ip) g)
    unfolding venta_set_mode_sleep post_button http_post
    venta_set_mode_sleep_toggles =
        let reads : venta_set_mode_sleep env json thread on g
            ≡ read_then (pos 5) (λ x. x.current_values.mode_sleep) =
          simp (address, url_of-short (codes "/api/btn") ip (omega arith) short) refl in
        (
          λ same.
              reads
              ∙ read_then-end (pos 5) (λ x. x.current_values.mode_sleep)
              ∙ simp (differs_not g'.current_values.mode_sleep on same),
          λ other. (
            button_result
                (response_of (env.attempt (after_request (button_request ip (pos 5)) g').posts)),
            reads
                ∙ read_then-end (pos 5) (λ x. x.current_values.mode_sleep)
                ∙ simp (differs_when g'.current_values.mode_sleep on other),
          ),
          failed_request,
        )

    -- So is the mode button 6 by the automatic mode that is stored.
    pub venta_set_mode_automatic_toggles :
        (truth g'.current_values.mode_automatic ≡ on
          → venta_set_mode_automatic env json thread on g ≡ some (none, g'))
        × (truth g'.current_values.mode_automatic ≢ on
            → (r : Option ℤ) × (venta_set_mode_automatic env json thread on g
                ≡ some (r, after_request (button_request ip (pos 6)) g')))
    unfolding venta_set_mode_automatic post_button http_post
    venta_set_mode_automatic_toggles =
        let reads : venta_set_mode_automatic env json thread on g
            ≡ read_then (pos 6) (λ x. x.current_values.mode_automatic) =
          simp (address, url_of-short (codes "/api/btn") ip (omega arith) short) refl in
        (
          λ same.
              reads
              ∙ read_then-end (pos 6) (λ x. x.current_values.mode_automatic)
              ∙ simp (differs_not g'.current_values.mode_automatic on same),
          λ other. (
            button_result
                (response_of (env.attempt (after_request (button_request ip (pos 6)) g').posts)),
            reads
                ∙ read_then-end (pos 6) (λ x. x.current_values.mode_automatic)
                ∙ simp (differs_when g'.current_values.mode_automatic on other),
          ),
        )

  -- Where the humifier answers a request for values with an empty body, the byte that is parsed was
  -- never written.
  pub venta_get_data_empty_body :
      (json : JsonC) (thread : Thread) (g : Globals) (code : ℕ)
      → g.humifier.ip ≡ some ip
      → is_refused code ≡ false
      → env.attempt (after_request (data_request ip) g).posts ≡ performed [] true code
      → venta_get_data env json thread g ≡ none
  unfolding venta_get_data http_post get_data_result parse_json_data response_of
  venta_get_data_empty_body json thread g code e ok empty =
      simp (e, url_of-short (codes "/api/data") ip (omega arith) short, empty, ok)
