-- ===== src/Runtime/MessagePipeline/Routing.antt =====
-- How the route of a message goes with its priority and its order number.
use xianyu_manager.Text.{is_in}
use text.Mathlib.Text.{starts_with}
use xianyu_manager.Dict.{is_some}
use xianyu_manager.Runtime.MessagePipeline.Routes.{
  classify_route, get_queue_priority, is_200, parse, parse_event, parse_collected, priority_of_data,
  sync_priority, word, contains_any, order_markers, system_markers, texts_of,
}
use xianyu_manager.Runtime.MessagePipeline.{
  MessageRoute, chat, heartbeat, invalid, order, system, unknown,
}
use xianyu_manager.Runtime.MessagePipeline.Values.{
  Fields, Json, as_dict, element, json_bool, json_dict, json_float, json_int, json_list, json_null,
  json_text, no_elements, str_of, get, field, no_fields,
}
use xianyu_manager.Prelude.{
  ◌&&◌, ◌==◌, Bool, List, Option, String, arith, false, if◌then◌else◌, none, not, refl, some, true,
  ◌||◌, ℕ, ◌≡◌, ◌≤◌,
}

-- The priority that the route alone allows.
abbrev pub Agrees : MessageRoute → ℕ → Type 0
Agrees heartbeat p = p ≡ 0
Agrees order p = p ≡ 1
Agrees chat p = p ≡ 2
Agrees _ p = (1 ≤ p) × (p ≤ 3)

priority_of_data-bounds : (s : String) → (1 ≤ priority_of_data s) × (priority_of_data s ≤ 3)
unfolding priority_of_data
priority_of_data-bounds s = ground arith

module _ (lower_case : String → String) (repr : Json → String) where
  sync_priority-bounds :
      (o : Option Json)
      → (1 ≤ sync_priority lower_case repr o) × (sync_priority lower_case repr o ≤ 3)
  unfolding sync_priority
  sync_priority-bounds (some (json_list (element v vs))) =
      priority_of_data-bounds (lower_case (str_of repr v))
  sync_priority-bounds (some (json_list no_elements)) = (omega arith, omega arith)
  sync_priority-bounds none = (omega arith, omega arith)
  sync_priority-bounds (some json_null) = (omega arith, omega arith)
  sync_priority-bounds (some (json_bool _)) = (omega arith, omega arith)
  sync_priority-bounds (some (json_int _)) = (omega arith, omega arith)
  sync_priority-bounds (some (json_float _)) = (omega arith, omega arith)
  sync_priority-bounds (some (json_text _)) = (omega arith, omega arith)
  sync_priority-bounds (some (json_dict _)) = (omega arith, omega arith)

  abbrev sync_data : Fields → Option Json
  sync_data event = get "data" (as_dict (get "syncPushPackage" (as_dict (get "body" event))))

  get_queue_priority-Agrees :
      (event : Fields) (r : MessageRoute) → Agrees r (get_queue_priority lower_case repr event r)
  unfolding get_queue_priority
  get_queue_priority-Agrees event heartbeat = refl
  get_queue_priority-Agrees event order = refl
  get_queue_priority-Agrees event chat = refl
  get_queue_priority-Agrees event system = sync_priority-bounds (sync_data event)
  get_queue_priority-Agrees event unknown = sync_priority-bounds (sync_data event)
  get_queue_priority-Agrees event invalid = sync_priority-bounds (sync_data event)

  abbrev pub is_urgent_route : MessageRoute → Bool
  is_urgent_route heartbeat = true
  is_urgent_route order = true
  is_urgent_route _ = false

  classify_route-order_id :
      (event : Fields) (texts : List String) (order_id content : String)
      → (order_id == ""
          || is_urgent_route (classify_route lower_case repr event texts order_id content))
        ≡ true
  unfolding classify_route
  classify_route-order_id event texts order_id content =
      by_tests (order_id == "") (lwp == "/!" || msg_type == "heartbeat")
        (is_200 (get "code" event) && not (is_some (get "body" event))) (is_in "order" lwp)
        (msg_type == "order") (contains_any lower_case repr texts order_markers)
        (msg_type == "system"
          || is_in "system" lwp
          || contains_any lower_case repr texts system_markers)
        (starts_with lwp "/" || msg_type == "chat" || msg_type == "message" || not (content == ""))
    where
      lwp : String
      lwp = word lower_case repr "lwp" event

      msg_type : String
      msg_type = word lower_case repr "type" event

      by_tests :
          (a b c d1 d2 d3 e f : Bool)
          → (a
              || is_urgent_route (
                  if b
                  then heartbeat
                  else if c
                  then heartbeat
                  else if not a || d1 || d2 || d3
                  then order
                  else if e
                  then system
                  else if f
                  then chat
                  else unknown))
            ≡ true
      by_tests a b c d1 d2 d3 e f = ground arith

  module _ (order_id_of : String → String → String)
      (collect : Fields → Option (List (String × String))) where
    malformed : ((1 ≤ 3) × (3 ≤ 3)) × ((("" == "") || false) ≡ true)
    malformed = ((omega arith, omega arith), refl)

    parse_collected-Agrees :
        (o : Option (List (String × String))) (event : Fields)
        → let m = parse_collected lower_case repr order_id_of o event in
          Agrees m.route m.queue_priority × ((m.order_id == "" || is_urgent_route m.route) ≡ true)
    unfolding parse_collected parse_event
    parse_collected-Agrees none event = malformed
    parse_collected-Agrees (some candidates) event = (
      get_queue_priority-Agrees event _,
      classify_route-order_id event (texts_of lower_case repr order_id_of candidates) _ _,
    )

    -- This holds whatever texts are collected and whatever order numbers are found in them.
    pub parse-Agrees :
        (raw : Option Json)
        → let m = parse lower_case repr order_id_of collect raw in
          Agrees m.route m.queue_priority × ((m.order_id == "" || is_urgent_route m.route) ≡ true)
    unfolding parse
    parse-Agrees none = malformed
    parse-Agrees (some json_null) = malformed
    parse-Agrees (some (json_bool _)) = malformed
    parse-Agrees (some (json_int _)) = malformed
    parse-Agrees (some (json_float _)) = malformed
    parse-Agrees (some (json_text _)) = malformed
    parse-Agrees (some (json_list _)) = malformed
    parse-Agrees (some (json_dict no_fields)) = malformed
    parse-Agrees (some (json_dict (field k v fs))) =
        parse_collected-Agrees (collect (field k v fs)) (field k v fs)
