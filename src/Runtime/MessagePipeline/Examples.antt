-- ===== src/Runtime/MessagePipeline/Examples.antt =====
-- Events as the platform sends them, and the theorem about their routes.
use xianyu_manager.Runtime.MessagePipeline.Parse.{parse_message, parse_message-Agrees}
use xianyu_manager.Runtime.MessagePipeline.Texts.{
  add_candidate, add_text, collect_candidate_texts, extract_order_id_from_candidate_text, is_null,
  is_seen, names_update_key, search_all, starts_json, walk, walk_fields, walk_value,
}
use xianyu_manager.Runtime.MessagePipeline.{order}
use xianyu_manager.Text.{lower, strip, is_space, lstrip_by, rstrip_by, strip_by}
use xianyu_manager.Runtime.MessagePipeline.Routes.{
  classify_route, contains_any, extract_common_field, extract_content, extract_message_id,
  extract_order_id, first_content, first_order_id, get_queue_priority, has_any, is_200, parse,
  parse_collected, parse_event, texts_of, word, get_all,
}
use xianyu_manager.Runtime.MessagePipeline.Values.{
  Json, as_dict, field, first_non_empty, is_falsy, json_dict, json_int, json_text, no_fields,
  normalized, str_of, get, decimal,
}
use xianyu_manager.Runtime.MessagePipeline.Routing.{Agrees, is_urgent_route}
use xianyu_manager.Prelude.{
  ◌==◌, String, pos, some, true, ◌||◌, ◌≡◌, refl, Bool, Option, false, none, ℕ,
}
use xianyu_manager.Text

abbrev no_repr : Json → String
no_repr _ = ""

-- No text is JSON, and a pattern finds nothing.
abbrev no_loads : String → Option Json
no_loads _ = none

abbrev no_match : String → String → Option String
no_match _ _ = none

abbrev no_digit : ℕ → Bool
no_digit _ = false

abbrev event : Json
event = json_dict (
    field "id" (json_int (pos 17)) (
      field "lwp" (json_text " /s/sync ")
        (field "body" (json_dict (field "reminder" (json_text "买家确认收货") no_fields)) no_fields)))

parsed :
    let m = parse_message Text.lower no_repr no_loads no_match no_match no_digit 1 (some event) in
    (m.message_id ≡ "17") × (m.route ≡ order) × (m.queue_priority ≡ 1)
unfolding parse_message collect_candidate_texts walk walk_value walk_fields add_candidate add_text
    is_null is_seen starts_json decimal Text.strip_by Text.lstrip_by Text.rstrip_by Text.is_space
    extract_order_id_from_candidate_text search_all names_update_key parse parse_collected
    parse_event extract_message_id extract_common_field extract_order_id extract_content texts_of
    classify_route get_queue_priority first_order_id first_content first_non_empty normalized str_of
    is_falsy get as_dict contains_any has_any is_200 word Text.lower Text.strip get_all
parsed = (refl, refl, refl)

parse_message-Agrees_example :
    let m = parse_message Text.lower no_repr no_loads no_match no_match no_digit 1 (some event) in
    Agrees m.route m.queue_priority
    × ((m.order_id == "" || is_urgent_route Text.lower no_repr m.route) ≡ true)
parse_message-Agrees_example =
    parse_message-Agrees Text.lower no_repr no_loads no_match no_match no_digit 1 (some event)
