-- ===== src/Network/Commands/Safety.antt =====
-- The humifier's commands where its address is short enough and its answers are of the expected
-- shape: undefined behaviour, and the requests.
use dss_vdc_venta.Prelude.{
  List, ◌≡◌, ℤ, some, Bool, false, Option-cases, inl, negsuc, inr, if◌then◌else◌, pos, refl, ◌∷◌,
  [], length, Bool-cases, ◌≤◌, true, ◌||◌, arith, ◌++◌, ◌∙◌, length-append, ap, sym, none,
}
use dss_vdc_venta.Network.Action.{pure}
use dss_vdc_venta.Network.Http.{Env, text, MemoryStruct, response_of, http_post}
use dss_vdc_venta.Network.Json.{JsonC}
use dss_vdc_venta.Network.Parse.{
  c_string, entries, device_entries, parse_text, parse_json_data, parsed, unlock,
}
use dss_vdc_venta.Network.Parse.Frame.{parse_text_frame, without_readings}
use dss_vdc_venta.Network.Commands.{
  url_of, post_button, venta_set_fan, get_data_result, venta_get_data, venta_set_mode_sleep,
  venta_set_mode_automatic, connect_failed, ℤ, some, length, differs,
}
use dss_vdc_venta.Network.Safe.{
  url_text, data_request, button_request, IsButton, Advances, IsSafe, IsSafe-eq, IsSafe-bind,
  one_more, presses, done, asks, IsSafe-gets, IsSafe-if, IsSafe-pure,
}
use dss_vdc_venta.Types.{Globals, Request, Thread}
use dss_vdc_venta.CString.{Bytes, codes, strcmp_eq}

module _ (json : JsonC) where
  open json use {Json, tokener_parse, members}

  -- An object whose members called "device" are objects.
  abbrev pub HasDevices : List (Bytes × Json) → Type 0
  HasDevices [] = Unit
  HasDevices ((key, value) ∷ ms) =
      (strcmp_eq key (codes "device") ≡ true
        → (device : List (Bytes × Json)) × (members value ≡ some device))
      × HasDevices ms

  -- An answer that either does not parse or is such an object.
  pub record IsAnswer (bytes : Bytes) : Type 0 where
    pub object :
        (j : Json)
        → tokener_parse (c_string bytes) ≡ some j
        → (ms : List (Bytes × Json)) × (members j ≡ some ms) × HasDevices ms

  entries_total :
      (now : ℤ) (ms : List (Bytes × Json)) (g : Globals)
      → HasDevices ms
      → (g' : Globals) × (changed : Bool) × (entries json now ms g ≡ some (g', changed))
  unfolding entries
  entries_total now [] g h = (g, false, refl)
  entries_total now ((key, value) ∷ ms) g h = elim (Bool-cases (strcmp_eq key (codes "device"))) [
    | inl device ↦
        let (d, object) = h.0 device in
        let (g', later, rest) = entries_total now ms (device_entries json now d g).0 h.1 in
        (g', (device_entries json now d g).1 || later, rw (device, object, rest, entries) refl)
    | inr other ↦
        let (g', changed, rest) = entries_total now ms g h.1 in
        (g', changed, rw (other, entries) rest)
  ]

  -- Such an answer is parsed without undefined behaviour.
  pub parse_text_total :
      (thread : Thread) (now : ℤ) (bytes : Bytes) (g : Globals)
      → IsAnswer bytes
      → (rc : ℤ) × (g' : Globals) × (parse_text json thread now bytes g ≡ some (rc, g'))
  unfolding parse_text
  parse_text_total thread now bytes g h = elim (Option-cases (tokener_parse (c_string bytes))) [
    | inl bad ↦ (negsuc 13, g, rw (bad, parse_text) refl)
    | inr (j, good) ↦
        let (ms, object, devices) = h.object j good in
        let (g', changed, over) = entries_total now ms g devices in
        (
          if changed then pos 0 else pos 1,
          record g' { network_mutex = unlock thread g'.network_mutex },
          rw (good, object, over, parse_text) refl,
        )
  ]

-- Every answer that `http_post` hands over has bytes, and of that shape.
pub record IsAnswering (env : Env) (json : JsonC) : Type 0 where
  pub answer :
      (posts : List Request) (mem : MemoryStruct)
      → response_of (env.attempt posts) ≡ some mem
      → (bytes : Bytes) × (mem.memory ≡ text bytes) × IsAnswer json bytes

pub url_of-short :
    (path ip : Bytes)
    → length path ≤ 9
    → length ip ≤ 83
    → url_of path (some ip) ≡ some (url_text path ip)
unfolding url_of
url_of-short path ip p q = ground (arith, length-append ip path)

module _ (env : Env) (ip : Bytes) (short : length ip ≤ 83) where
  post_button-IsSafe :
      (btn : ℤ) → IsButton btn → IsSafe ip (post_button env (url_text (codes "/api/btn") ip) btn)
  unfolding post_button http_post
  post_button-IsSafe btn b = record {
    run = λ g e. (
      _,
      _,
      refl,
      record {
        sent = button_request ip btn ∷ [];
        posts = refl;
        requests = one_more (presses btn b) done;
        kept = refl;
      },
    );
  }

  pub venta_set_fan-IsSafe : (btn : ℤ) → IsButton btn → IsSafe ip (venta_set_fan env btn)
  unfolding venta_set_fan
  venta_set_fan-IsSafe btn b =
      IsSafe-eq ip _ _ (λ g e. rw (e, url_of-short (codes "/api/btn") ip (omega arith) short) refl)
        (post_button-IsSafe btn b)

  module _ (json : JsonC) (answers : IsAnswering env json) (thread : Thread) where
    data_posted : Globals → Globals
    data_posted g = record g { posts = g.posts ++ data_request ip ∷ [] }

    venta_get_data-run :
        (g : Globals)
        → g.humifier.ip ≡ some ip
        → venta_get_data env json thread g
          ≡ get_data_result env json thread
              (response_of (env.attempt (data_posted g).posts))
              (data_posted g)
    unfolding venta_get_data http_post data_posted
    venta_get_data-run g e = rw (e, url_of-short (codes "/api/data") ip (omega arith) short) refl

    asked :
        (g g' : Globals) → without_readings g' ≡ without_readings (data_posted g) → Advances ip g g'
    unfolding data_posted
    asked g g' k = record {
      sent = data_request ip ∷ [];
      posts = ap (λ (x : Globals). x.posts) k;
      requests = one_more asks done;
      kept =
          k
          ∙ ap (λ ps. without_readings (record g { posts = ps }))
              (sym (ap (λ (x : Globals). x.posts) k));
    }

    -- Asking for the values meets no undefined behaviour.
    pub venta_get_data-IsSafe : IsSafe ip (venta_get_data env json thread)
    unfolding get_data_result parse_json_data
    venta_get_data-IsSafe = record {
      run = λ g e. elim (Option-cases (response_of (env.attempt (data_posted g).posts))) [
        | inl failed ↦ (
          connect_failed,
          data_posted g,
          venta_get_data-run g e ∙ rw failed refl,
          asked g (data_posted g) refl,
        )
        | inr (mem, some_answer) ↦
            let (bytes, is_text, shape) = answers.answer (data_posted g).posts mem some_answer in
            let now = env.time (data_posted g).posts in
            let (rc, g', parsed) = parse_text_total json thread now bytes (data_posted g) shape in
            (
              rc,
              g',
              venta_get_data-run g e ∙ rw some_answer (rw is_text parsed),
              asked g g' (parse_text_frame json thread now bytes (data_posted g) g' rc parsed),
            )
      ];
    }

    toggled-IsSafe :
        (btn mode : ℤ) (on : Bool)
        → IsButton btn
        → IsSafe ip (
            if differs mode on
            then post_button env (url_text (codes "/api/btn") ip) btn
            else pure none)
    toggled-IsSafe btn mode on b =
        IsSafe-if ip (differs mode on) _ _ (post_button-IsSafe btn b) (IsSafe-pure ip none)

    pub venta_set_mode_sleep-IsSafe :
        (on : Bool) → IsSafe ip (venta_set_mode_sleep env json thread on)
    unfolding venta_set_mode_sleep
    venta_set_mode_sleep-IsSafe on =
        IsSafe-eq ip _ _
          (λ g e. rw (e, url_of-short (codes "/api/btn") ip (omega arith) short) refl)
          (IsSafe-bind ip _ _ venta_get_data-IsSafe λ _.
            IsSafe-bind ip _ _ (IsSafe-gets ip (λ g. g.current_values.mode_sleep))
              λ mode. toggled-IsSafe (pos 5) mode on (5, refl, omega arith, omega arith))

    pub venta_set_mode_automatic-IsSafe :
        (on : Bool) → IsSafe ip (venta_set_mode_automatic env json thread on)
    unfolding venta_set_mode_automatic
    venta_set_mode_automatic-IsSafe on =
        IsSafe-eq ip _ _
          (λ g e. rw (e, url_of-short (codes "/api/btn") ip (omega arith) short) refl)
          (IsSafe-bind ip _ _ venta_get_data-IsSafe λ _.
            IsSafe-bind ip _ _ (IsSafe-gets ip (λ g. g.current_values.mode_automatic))
              λ mode. toggled-IsSafe (pos 6) mode on (6, refl, omega arith, omega arith))
