-- ===== src/Tests/Network.antt =====
-- Answers of the humifier, and its buttons.
use dss_vdc_venta.Network.Http.Body.{granted, http_post_out_of_memory, http_post_body}
use dss_vdc_venta.Prelude.{
  List, get_elem?, ◌≡◌, pos, truth, [], ℕ, some, ◌∷◌, false, true, none, arith, refl, ◌≢◌, Option,
  ℤ,
}
use dss_vdc_venta.Tests.Fixtures.{humifier, globals, env, json, address, hum_sensor, no_sensor}
use dss_vdc_venta.Types.{main_thread, Globals, zero_scene}
use dss_vdc_venta.CString.{Bytes, codes}
use dss_vdc_venta.Sensors.{find_sensor_value_by_name}
use dss_vdc_venta.Network.Http.{Env, performed, http_post, text, response_of}
use dss_vdc_venta.Network.Parse.{device_entries, parse_text}
use dss_vdc_venta.Network.Parse.Frame.{without_readings, parse_text_frame}
use dss_vdc_venta.Network.Parse.Changes.{
  at_slot, apply_readings, readings_for, device_entries-slot, change_against_reading_before_last,
}
use dss_vdc_venta.Network.Commands.{venta_get_data, venta_set_mode_sleep, venta_set_mode_automatic}
use dss_vdc_venta.Network.Commands.Buttons.{
  after_request, venta_set_mode_sleep_toggles, venta_set_mode_automatic_toggles,
  venta_get_data_empty_body,
}
use dss_vdc_venta.Network.Safe.{button_request, data_request}
use dss_vdc_venta.Network.Uri.{
  Piece, plain, escaped, decode_uri_component, encode, decode_uri_component-encode,
}

abbrev entries_of : List (Bytes × ℕ)
entries_of = (codes "hum", 4) ∷ (codes "fan", 3) ∷ []

device_entries-slot_example :
    get_elem? (device_entries json (pos 100) entries_of globals).0.humifier.sensor_values 0
    ≡ at_slot (apply_readings (pos 100) (readings_for json humifier 0 entries_of)) (some hum_sensor)
device_entries-slot_example = device_entries-slot json (pos 100) entries_of globals 0

hum_found : find_sensor_value_by_name (codes "hum") humifier ≡ some 0
unfolding find_sensor_value_by_name
hum_found = refl

-- 44, 45 and 44 in turn: the last change is not signalled.
change_against_reading_before_last_example :
    let after_44 = (device_entries json (pos 100) ((codes "hum", 44) ∷ []) globals).0 in
    let after_45 = (device_entries json (pos 200) ((codes "hum", 45) ∷ []) after_44).0 in
    (device_entries json (pos 300) ((codes "hum", 44) ∷ []) after_45).1 ≡ false
change_against_reading_before_last_example =
    change_against_reading_before_last json (pos 100) (pos 200) (pos 300) (codes "hum") 44 45 44
      globals 0 (pos 44) (pos 45) (pos 44) hum_sensor hum_found refl (λ e. cc) refl refl refl

abbrev updated : Globals
updated = record globals {
  humifier = record humifier {
    sensor_values = record hum_sensor { value = pos 4; last_query = pos 100 } ∷ no_sensor ∷ [];
  };
  current_values = record zero_scene { mode_sleep = pos 2; fan = pos 3; current_humidity = pos 4 };
}

answer_parsed : parse_text json main_thread (pos 100) (codes "x") globals ≡ some (pos 0, updated)
unfolding parse_text
answer_parsed = refl

parse_text_frame_at_input : without_readings updated ≡ without_readings globals
parse_text_frame_at_input =
    parse_text_frame json main_thread (pos 100) (codes "x") globals updated (pos 0) answer_parsed

abbrev asked : Globals
asked = record updated { posts = data_request address ∷ [] }

got : venta_get_data env json main_thread globals ≡ some (pos 0, asked)
unfolding venta_get_data
got = refl

venta_set_mode_sleep_toggles_example :
    (truth (pos 2) ≡ false
      → venta_set_mode_sleep env json main_thread false globals ≡ some (none, asked))
    × (truth (pos 2) ≢ false
        → (r : Option ℤ) × (venta_set_mode_sleep env json main_thread false globals
            ≡ some (r, after_request (button_request address (pos 5)) asked)))
    × (response_of (env.attempt (after_request (data_request address) globals).posts) ≡ none
        → asked ≡ after_request (data_request address) globals)
venta_set_mode_sleep_toggles_example =
    venta_set_mode_sleep_toggles env address (omega arith) json main_thread false globals asked
      (pos 0) refl got

venta_set_mode_automatic_toggles_at_input :
    (truth (pos 0) ≡ true
      → venta_set_mode_automatic env json main_thread true globals ≡ some (none, asked))
    × (truth (pos 0) ≢ true
        → (r : Option ℤ) × (venta_set_mode_automatic env json main_thread true globals
            ≡ some (r, after_request (button_request address (pos 6)) asked)))
venta_set_mode_automatic_toggles_at_input =
    venta_set_mode_automatic_toggles env address (omega arith) json main_thread true globals asked
      (pos 0) refl got

abbrev silent : Env
silent = record env { attempt = λ posts. performed [] true 200 }

venta_get_data_empty_body_at_input : venta_get_data silent json main_thread globals ≡ none
venta_get_data_empty_body_at_input =
    venta_get_data_empty_body silent address (omega arith) json main_thread globals 200 refl refl
      refl

abbrev pieces : List Piece
pieces = plain 97 ∷ escaped false true 47 ∷ escaped true false 175 ∷ []

decode_uri_component-encode_example : decode_uri_component (encode pieces) ≡ 97 ∷ 47 ∷ 175 ∷ []
decode_uri_component-encode_example =
    decode_uri_component-encode pieces (refl, (omega arith, (omega arith, tt)))

abbrev two_chunks : Env
two_chunks = record env {
  attempt = λ posts. performed (granted (codes "{" ∷ codes "}" ∷ [])) true 200;
}

http_post_body_example :
    http_post two_chunks (codes "u") none globals
    ≡ some (
      some (record { memory = text (codes "{}"); size = 2 }),
      record globals { posts = record { url = codes "u"; body = none } ∷ [] },
    )
http_post_body_example =
    http_post_body two_chunks (codes "u") none globals (codes "{") (codes "}" ∷ []) 200 refl

abbrev no_second : Env
no_second = record env {
  attempt = λ posts. performed ((true, codes "{") ∷ (false, codes "}") ∷ []) false 200;
}

http_post_out_of_memory_at_input :
    http_post no_second (codes "u") none globals
    ≡ some (none, record globals { posts = record { url = codes "u"; body = none } ∷ [] })
http_post_out_of_memory_at_input =
    http_post_out_of_memory no_second (codes "u") none globals (codes "{" ∷ []) (codes "}") [] false
      200 (omega arith) refl
