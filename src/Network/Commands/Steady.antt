-- ===== src/Network/Commands/Steady.antt =====
-- Requests for the values whose answers have the same readings for the sensor slots each time.
use dss_vdc_venta.Prelude.{
  ℤ, ℕ, List, Option, ◌≡◌, ◌≤◌, ◌∷◌, [], ◌++◌, some, length, suc, ap, ◌∙◌, refl, pos, if◌then◌else◌,
  ◌||◌, Bool, false, arith, subst,
}
use dss_vdc_venta.Network.Action.Leads.{Leads, IgnoresPosts}
use dss_vdc_venta.Network.Http.{Env, Memory, MemoryStruct, text, response_of, http_post}
use dss_vdc_venta.Network.Json.{JsonC}
use dss_vdc_venta.Network.Parse.{
  c_string, unlock, device_entries, entries, parse_text, parse_json_data, parsed,
}
use dss_vdc_venta.Network.Parse.Frame.{device_entries_frame}
use dss_vdc_venta.Network.Parse.Changes.Settled.{
  Holds-suc, Reads, Holds, device_entries-Holds, device_entries_quiet, readings_for-device_entries,
}
use dss_vdc_venta.Network.Commands.{venta_get_data, get_data_result}
use dss_vdc_venta.Network.Commands.Safety.{url_of-short}
use dss_vdc_venta.Network.Safe.{data_request}
use dss_vdc_venta.Types.{Globals, VentaHumifier, Request, Thread}
use dss_vdc_venta.CString.{Bytes, codes}

module _ (env : Env) (json : JsonC) where
  open json use {Json, tokener_parse, members}

  -- The answer to the last request: an object under "device", with these readings.
  pub record Steady (reads : ℕ → Option ℤ) (h : VentaHumifier) (posts : List Request) : Type 0 where
    pub memory : MemoryStruct
    pub bytes : Bytes
    pub object : Json
    pub device : Json
    pub in_device : List (Bytes × Json)
    pub got : response_of (env.attempt posts) ≡ some memory
    pub is_text : memory.memory ≡ text bytes
    pub parses : tokener_parse (c_string bytes) ≡ some object
    pub holds_device : members object ≡ some ((codes "device", device) ∷ [])
    pub holds_readings : members device ≡ some in_device
    pub readings : Reads json reads in_device h

  -- An address that fits, every answer with the same readings, and slots that hold them so often.
  pub record IsSteady (reads : ℕ → Option ℤ) (ip : Bytes) (n : ℕ) (g : Globals) : Type 0 where
    pub address : g.humifier.ip ≡ some ip
    pub short : length ip ≤ 83
    pub answers : (posts : List Request) → Steady reads g.humifier posts
    pub held : Holds n reads g.humifier

  pub IsSteady-IgnoresPosts :
      (reads : ℕ → Option ℤ) (ip : Bytes) (n : ℕ) → IgnoresPosts (IsSteady reads ip n)
  IsSteady-IgnoresPosts reads ip n g posts s = record {
    address = s.address;
    short = s.short;
    answers = s.answers;
    held = s.held;
  }

  pub IsSteady-suc :
      (reads : ℕ → Option ℤ) (ip : Bytes) (n : ℕ) (g : Globals)
      → IsSteady reads ip (suc n) g
      → IsSteady reads ip n g
  IsSteady-suc reads ip n g s = record {
    address = s.address;
    short = s.short;
    answers = s.answers;
    held = Holds-suc n reads g.humifier s.held;
  }

  abbrev asked : Bytes → Globals → Globals
  asked ip g = record g { posts = g.posts ++ data_request ip ∷ [] }

  abbrev unlocked_by : Thread → Globals → Globals
  unlocked_by thread g = record g { network_mutex = unlock thread g.network_mutex }

  module _ (reads : ℕ → Option ℤ) (ip : Bytes) (thread : Thread) (n : ℕ) (g : Globals)
      (s : IsSteady reads ip n g) where
    abbrev answer : Steady reads g.humifier (asked ip g).posts
    answer = s.answers (asked ip g).posts

    abbrev after : Globals × Bool
    after = device_entries json (env.time (asked ip g).posts) answer.in_device (asked ip g)

    requested :
        venta_get_data env json thread g
        ≡ get_data_result env json thread
            (response_of (env.attempt (asked ip g).posts))
            (asked ip g)
    unfolding venta_get_data http_post
    requested =
        let short = s.short in
        rw (s.address, url_of-short (codes "/api/data") ip (omega arith) short) refl

    entered :
        (now : ℤ)
        → entries json now ((codes "device", answer.device) ∷ []) (asked ip g)
          ≡ some (
            (device_entries json now answer.in_device (asked ip g)).0,
            (device_entries json now answer.in_device (asked ip g)).1 || false,
          )
    unfolding entries
    entered now = rw answer.holds_readings refl

    parsed_steady :
        (now : ℤ)
        → parse_text json thread now answer.bytes (asked ip g)
          ≡ parsed json thread (
              some (
                (device_entries json now answer.in_device (asked ip g)).0,
                (device_entries json now answer.in_device (asked ip g)).1 || false,
              ))
    unfolding parse_text
    parsed_steady now = rw (answer.parses, answer.holds_device, entered now, parse_text) refl

    read_text :
        (now : ℤ)
        → parse_json_data json thread now answer.memory (asked ip g)
          ≡ parse_text json thread now answer.bytes (asked ip g)
    unfolding parse_json_data
    read_text now =
        ap
          (λ (m : Memory).
            parse_json_data json thread now (record { memory = m; size = answer.memory.size })
              (asked ip g))
          answer.is_text

    get_data_steady :
        venta_get_data env json thread g
        ≡ some (if after.1 || false then pos 0 else pos 1, unlocked_by thread after.0)
    unfolding get_data_result
    get_data_steady =
        requested
        ∙ ap (λ (o : Option MemoryStruct). get_data_result env json thread o (asked ip g))
            answer.got
        ∙ read_text (env.time (asked ip g).posts)
        ∙ parsed_steady (env.time (asked ip g).posts)

    after-IsSteady : IsSteady reads ip (suc n) (unlocked_by thread after.0)
    after-IsSteady = record {
      address =
          ap (λ (x : Globals). x.humifier.ip)
            (device_entries_frame json (env.time (asked ip g).posts) answer.in_device (asked ip g))
          ∙ s.address;
      short = s.short;
      answers = λ posts.
          let a = s.answers posts in
          record {
            memory = a.memory;
            bytes = a.bytes;
            object = a.object;
            device = a.device;
            in_device = a.in_device;
            got = a.got;
            is_text = a.is_text;
            parses = a.parses;
            holds_device = a.holds_device;
            holds_readings = a.holds_readings;
            readings = λ i.
                readings_for-device_entries json (env.time (asked ip g).posts) answer.in_device
                  (asked ip g) i a.in_device
                ∙ a.readings i;
          };
      held =
          device_entries-Holds json n (env.time (asked ip g).posts) reads answer.in_device
            (asked ip g) answer.readings s.held;
    }

  pub venta_get_data-IsSteady :
      (reads : ℕ → Option ℤ) (ip : Bytes) (thread : Thread) (n : ℕ)
      → Leads (IsSteady reads ip n) (IsSteady reads ip (suc n)) (venta_get_data env json thread)
  venta_get_data-IsSteady reads ip thread n = record {
    kept = λ a g g' s e.
        let same : unlocked_by thread (after reads ip thread n g s).0 ≡ g' =
          cc (get_data_steady reads ip thread n g s, e) in
        subst (IsSteady reads ip (suc n)) same (after-IsSteady reads ip thread n g s);
  }

  -- A request whose readings the slots hold twice reports no change.
  pub venta_get_data_quiet :
      (reads : ℕ → Option ℤ) (ip : Bytes) (thread : Thread) (g : Globals)
      → IsSteady reads ip 2 g
      → (g' : Globals) × (venta_get_data env json thread g ≡ some (pos 1, g'))
        × IsSteady reads ip 2 g'
  venta_get_data_quiet reads ip thread g s =
      let quiet =
        device_entries_quiet json (env.time (asked ip g).posts) reads
          (answer reads ip thread 2 g s).in_device (asked ip g)
          (answer reads ip thread 2 g s).readings s.held in
      (
        unlocked_by thread (after reads ip thread 2 g s).0,
        get_data_steady reads ip thread 2 g s
            ∙ ap
                (λ (b : Bool). some (
                  if b || false then pos 0 else pos 1,
                  unlocked_by thread (after reads ip thread 2 g s).0,
                ))
                quiet,
        IsSteady-suc reads ip 2 _ (after-IsSteady reads ip thread 2 g s),
      )
