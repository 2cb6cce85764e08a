-- ===== src/Runtime/MessagePipeline/Routes.antt =====
-- The classification of an event and the fields that are taken from it. Python's `str.lower` and the
-- text of a list or a dict are parameters; the texts collected from an event with where they stand,
-- and the order number found in such a text, are arguments of the functions here, which Parse gives.
use text.Mathlib.Text.{starts_with}
use xianyu_manager.Dict.{is_some}
use xianyu_manager.Text.{is_in}
use xianyu_manager.Services.ReplyPolicy.Candidates.{candidates}
use xianyu_manager.Runtime.MessagePipeline.{
  MessageRoute, ParsedMessage, chat, heartbeat, invalid, order, priority_chat, priority_heartbeat,
  priority_order, priority_other, system, unknown,
}
use xianyu_manager.Runtime.MessagePipeline.Values.{
  Fields, Json, as_dict, element, field, first_non_empty, json_dict, json_float, json_int,
  json_list, no_fields, normalized, str_of, get,
}
use xianyu_manager.Prelude.{
  ◌&&◌, ◌++◌, ◌==◌, ◌==ℕ◌, Bool, List, Option, String, [], false, if◌then◌else◌, not, pos, some,
  ◌||◌, ℕ, ◌∷◌, none,
}

abbrev pub order_markers : List String
order_markers =
    "交易关闭" ∷ "订单关闭" ∷ "钱款已原路退返" ∷ "退款中" ∷ "退款成功" ∷ "退货退款" ∷ "退款关闭" ∷ "买家确认收货" ∷ "交易成功" ∷ "已发货"
    ∷ "等待买家收货" ∷ "我已付款，等待你发货" ∷ "待发货" ∷ "去发货" ∷ "TRADE_PAID_DONE_SELLER" ∷ []

abbrev pub system_markers : List String
system_markers =
    "闲鱼小红花" ∷ "温馨提醒" ∷ "曝光卡" ∷ "蚂蚁森林" ∷ "能量可领" ∷ "创建合约" ∷ "假客服骗钱" ∷ "订单即将自动确认收货" ∷ "宝贝性价比如何，去表个态吧"
    ∷ "发来一条消息" ∷ "发来一条新消息" ∷ "已送出小红花" ∷ "已收下" ∷ []

-- `any(needle in text for needle in needles)`
unfoldable pub has_any : List String → String → Bool
has_any [] text = false
has_any (n ∷ ns) text = is_in n text || has_any ns text

-- `event.get("code") == 200`
unfoldable pub is_200 : Option Json → Bool
is_200 (some (json_int (pos n))) = n ==ℕ 200
is_200 (some (json_float s)) = s == "200.0"
is_200 _ = false

-- The priority of an event with another route, by the text of the first element of its sync data.
unfoldable pub priority_of_data : String → ℕ
unfolding has_any
priority_of_data data_str =
    if has_any ("orderid" ∷ "order_id" ∷ "bizorderid" ∷ "paysucc" ∷ "paid" ∷ []) data_str
    then priority_order
    else if has_any ("message" ∷ "chat" ∷ []) data_str
    then priority_chat
    else priority_other

module _ (lower_case : String → String) (repr : Json → String) where
  lowered : List String → List String
  lowered [] = []
  lowered (s ∷ ss) = lower_case s ∷ lowered ss

  unfoldable pub contains_any : List String → List String → Bool
  unfolding has_any lowered
  contains_any [] markers = false
  contains_any (t ∷ ts) markers =
      (not (t == "") && has_any (lowered markers) (lower_case t)) || contains_any ts markers

  -- `str(event.get(key, "") or "").strip().lower()`
  unfoldable pub word : String → Fields → String
  unfolding get normalized
  word key event = lower_case (normalized repr (get key event))

  unfoldable pub classify_route : Fields → List String → String → String → MessageRoute
  unfolding word is_200 contains_any
  classify_route event texts order_id content =
      let lwp = word "lwp" event in
      let msg_type = word "type" event in
      if lwp == "/!" || msg_type == "heartbeat"
      then heartbeat
      else if is_200 (get "code" event) && not (is_some (get "body" event))
      then heartbeat
      else if not (order_id == "")
          || is_in "order" lwp
          || msg_type == "order"
          || contains_any texts order_markers
      then order
      else if msg_type == "system" || is_in "system" lwp || contains_any texts system_markers
      then system
      else if starts_with lwp "/"
          || msg_type == "chat"
          || msg_type == "message"
          || not (content == "")
      then chat
      else unknown

  -- `body["syncPushPackage"]["data"]`, where it is a list that is not empty.
  unfoldable pub sync_priority : Option Json → ℕ
  unfolding priority_of_data str_of
  sync_priority (some (json_list (element v vs))) = priority_of_data (lower_case (str_of repr v))
  sync_priority _ = priority_other

  unfoldable pub get_queue_priority : Fields → MessageRoute → ℕ
  unfolding as_dict get sync_priority
  get_queue_priority event heartbeat = priority_heartbeat
  get_queue_priority event order = priority_order
  get_queue_priority event chat = priority_chat
  get_queue_priority event _ =
      sync_priority (get "data" (as_dict (get "syncPushPackage" (as_dict (get "body" event)))))

  unfoldable pub extract_message_id : Fields → Fields → String
  unfolding get first_non_empty
  extract_message_id event body = first_non_empty repr (
      get "id" event
      ∷ get "msgId" event
      ∷ get "message_id" event
      ∷ get "id" body
      ∷ get "msgId" body
      ∷ get "messageId" body
      ∷ get "message_id" body
      ∷ [])

  -- `[fields.get(key) for key in keys]`
  unfoldable pub get_all : List String → Fields → List (Option Json)
  unfolding get
  get_all [] fs = []
  get_all (k ∷ ks) fs = get k fs ∷ get_all ks fs

  unfoldable pub extract_common_field : Fields → Fields → List String → String
  unfolding get_all first_non_empty
  extract_common_field event body keys =
      first_non_empty repr (get_all keys body ++ get_all keys event)

  module _ (order_id_of : String → String → String) where
    -- The first order number found in a text.
    unfoldable pub first_order_id : List (String × String) → String
    first_order_id [] = ""
    first_order_id ((source, text) ∷ ts) =
        let rest = first_order_id ts in
        if order_id_of text source == "" then rest else order_id_of text source

    unfoldable pub extract_order_id : Fields → List (String × String) → Fields → String
    unfolding get first_non_empty first_order_id
    extract_order_id body candidates event =
        let explicit = first_non_empty repr (
          get "orderId" body
          ∷ get "bizOrderId" body
          ∷ get "orderId" event
          ∷ get "bizOrderId" event
          ∷ []) in
        if explicit == "" then first_order_id candidates else explicit

    -- The first text that stands where content is expected.
    unfoldable pub first_content : List (String × String) → String
    unfolding has_any
    first_content [] = ""
    first_content ((source, text) ∷ ts) =
        let rest = first_content ts in
        if has_any ("content" ∷ "text" ∷ "message" ∷ "notice" ∷ "title" ∷ []) (lower_case source)
        then text
        else rest

    unfoldable pub extract_content : Fields → Fields → List (String × String) → String
    unfolding get first_non_empty first_content
    extract_content event body candidates =
        let direct = first_non_empty repr (
          get "content" body
          ∷ get "text" body
          ∷ get "message" body
          ∷ get "msg" body
          ∷ get "content" event
          ∷ get "text" event
          ∷ get "message" event
          ∷ []) in
        if direct == "" then first_content candidates else direct

    -- `[text for _, text in candidate_texts]`
    unfoldable pub texts_of : List (String × String) → List String
    texts_of [] = []
    texts_of ((source, text) ∷ ts) = text ∷ texts_of ts

    abbrev pub invalid_message : Fields → ParsedMessage
    invalid_message raw = record {
      message_id = "";
      route = invalid;
      sender_id = "";
      item_id = "";
      order_id = "";
      content = "";
      raw = raw;
      queue_priority = priority_other;
    }

    -- The message of an event that is a dict with entries.
    unfoldable pub parse_event : List (String × String) → Fields → ParsedMessage
    unfolding as_dict extract_message_id extract_common_field extract_order_id extract_content
        texts_of classify_route get_queue_priority
    parse_event candidates event =
        let body = as_dict (get "body" event) in
        let order_id = extract_order_id body candidates event in
        let content = extract_content event body candidates in
        let route = classify_route event (texts_of candidates) order_id content in
        record {
          message_id = extract_message_id event body;
          route = route;
          sender_id = extract_common_field event body ("senderId" ∷ "sender_id" ∷ "fromId" ∷ []);
          item_id = extract_common_field event body ("itemId" ∷ "item_id" ∷ []);
          order_id = order_id;
          content = content;
          raw = event;
          queue_priority = get_queue_priority event route;
        }

    -- The `except` clause makes an invalid message of an event whose collection raises.
    unfoldable pub parse_collected : Option (List (String × String)) → Fields → ParsedMessage
    unfolding parse_event
    parse_collected none event = invalid_message event
    parse_collected (some candidates) event = parse_event candidates event

    -- Anything but a dict with entries is an invalid message.
    unfoldable pub parse : (Fields → Option (List (String × String))) → Option Json → ParsedMessage
    unfolding parse_collected
    parse collect (some (json_dict (field k v fs))) =
        parse_collected (collect (field k v fs)) (field k v fs)
    parse collect _ = invalid_message no_fields
