-- ===== src/Runtime/MessagePipeline/Parse.antt =====
-- `parse` with the texts that are collected from the event, and the order numbers in them.
use xianyu_manager.Runtime.MessagePipeline.{ParsedMessage}
use xianyu_manager.Runtime.MessagePipeline.Texts.{
  collect_candidate_texts, extract_order_id_from_candidate_text,
}
use xianyu_manager.Runtime.MessagePipeline.Routing.{Agrees, is_urgent_route, parse-Agrees}
use xianyu_manager.Prelude.{◌==◌, Bool, Option, String, true, ◌||◌, ℕ, ◌≡◌}
use xianyu_manager.Runtime.MessagePipeline.Routes.{parse}
use xianyu_manager.Runtime.MessagePipeline.Values.{Json}

module _ (lower_case : String → String) (repr : Json → String) (loads : String → Option Json)
    (re_search : String → String → Option String) (re_findall : String → String → Option String)
    (is_digit : ℕ → Bool) where
  -- The fuel is the depth to which the collection follows texts of JSON that stand in each other: with
  -- enough of it, it ends, and less stands for a `RecursionError`.
  unfoldable pub parse_message : ℕ → Option Json → ParsedMessage
  unfolding parse collect_candidate_texts extract_order_id_from_candidate_text
  parse_message fuel raw =
      parse lower_case repr
        (extract_order_id_from_candidate_text re_search re_findall is_digit lower_case)
        (collect_candidate_texts repr loads fuel) raw

  -- Every parsed message, that of a malformed event included, is queued as its route says: with
  -- priority 0 for a heartbeat, 1 for an order, 2 for a chat, and from 1 to 3 for the other routes; and
  -- a message with an order number is routed as an order or a heartbeat.
  pub parse_message-Agrees :
      (fuel : ℕ) (raw : Option Json)
      → let m = parse_message fuel raw in
        Agrees m.route m.queue_priority
        × ((m.order_id == "" || is_urgent_route lower_case repr m.route) ≡ true)
  unfolding parse_message
  parse_message-Agrees fuel raw =
      parse-Agrees lower_case repr
        (extract_order_id_from_candidate_text re_search re_findall is_digit lower_case)
        (collect_candidate_texts repr loads fuel) raw
