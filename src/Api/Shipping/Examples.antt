-- ===== src/Api/Shipping/Examples.antt =====
-- A shop with an item and a card, requests on it, and the theorems at them.
use xianyu_manager.Api.Shipping.Deliveries.{
  IsDelivered, create_delivery_rule-resolves, handle_all-known_mode,
}
use xianyu_manager.Api.{answered, forbidden, not_found, refused, unprocessable}
use xianyu_manager.Api.Table.{delete, find, top, update}
use xianyu_manager.Api.Shipping.{
  DeliveryCardRequest, DeliveryRuleCreateRequest, World, fetch_card_row, fetch_delivery_rule_row,
  item_account_id, newest_item, require_matching_card_account, require_matching_item_account,
  validate_yifan_content,
}
use xianyu_manager.Api.Shipping.Requests.{
  create_card, create_delivery_rule, delete_card, insert_card, insert_rule, new_card,
  normalize_content_type, refuse_card, set_rule, update_delivery_rule, set_card, update_card,
}
use xianyu_manager.Api.Shipping.Changes.{
  Request, handle, handle_all, post_card, post_rule, put_rule, remove_card, put_card,
}
use xianyu_manager.Api.Shipping.Integrity.{IsIntact, handle_all-IsIntact}
use xianyu_manager.Api.Shipping.Ownership.{IsConsistent, handle_all-IsConsistent}
use xianyu_manager.Runtime.MessagePipeline.Values.{Json, field, json_dict, json_text, no_fields}
use xianyu_manager.Services.Shipping.{
  DeliveryCard, DeliveryRule, resolve_delivery_rule, image, unknown,
}
use xianyu_manager.Dict.{mem}
use xianyu_manager.Text.{lower, strip}
use xianyu_manager.Prelude.{
  List, Option, String, [], none, pos, refl, some, true, ◌∷◌, ◌≡◌, ◌==◌, if◌then◌else◌, ◌≢◌,
}

-- A text is the object with two fields, or no JSON.
abbrev loads : String → Option Json
loads content =
    if content == "full"
    then some (
        json_dict
          (field "callback_url" (json_text "u") (field "merchant_id" (json_text "7") no_fields)))
    else none

abbrev card : DeliveryCard
card = record {
  id = 1;
  name = "codes";
  content_type = "text";
  content = "code 17";
  account_id = "me";
}

abbrev shop : World
shop = record {
  tables = record { delivery_rules = []; delivery_cards = card ∷ []; delivery_logs = [] };
  items = record { id = 1; item_id = "lamp"; account_id = "me" } ∷ [];
}

abbrev rule_request : DeliveryRuleCreateRequest
rule_request = record {
  item_id = "lamp";
  card_id = 1;
  account_id = "me";
  priority = pos 2;
  enabled = true;
}

abbrev card_request : DeliveryCardRequest
card_request = record {
  name = "pictures";
  content_type = " Image";
  content = "p.png";
  account_id = "me";
}

abbrev new_row : DeliveryRule
new_row = record {
  id = 1;
  item_id = "lamp";
  card_id = 1;
  priority = pos 2;
  enabled = true;
  account_id = "me";
}

answers :
    ((create_delivery_rule rule_request shop).0 ≡ answered new_row)
    × ((create_delivery_rule (record rule_request { account_id = "you" }) shop).0
        ≡ refused (forbidden "Card account does not match the requested account"))
    × ((create_delivery_rule (record rule_request { card_id = 4 }) shop).0
        ≡ refused (not_found "Card not found"))
    × ((create_card loads (record card_request { content_type = "yifan"; content = "" }) shop).0
        ≡ refused (unprocessable "Yifan content must be valid JSON"))
    × ((create_card loads card_request shop).0 ≡ answered (new_card "image" card_request 2))
unfolding create_delivery_rule insert_rule fetch_card_row fetch_delivery_rule_row find top
    require_matching_card_account require_matching_item_account item_account_id newest_item
    create_card insert_card normalize_content_type mem lower strip new_card validate_yifan_content
answers = (refl, refl, refl, refl, refl)

abbrev requests : List Request
requests =
    post_card card_request
    ∷ post_rule rule_request
    ∷ put_rule 1 (record { card_id = some 2; priority = none; enabled = none })
    ∷ remove_card 1
    ∷ []

-- The rule moved to the second card before the first one was deleted.
rule_survives :
    resolve_delivery_rule "lamp" "me" (handle_all loads requests shop).tables
    ≡ some (record { mode = image; content = "p.png"; card_id = 2; rule_id = 1 })
unfolding handle_all handle create_delivery_rule insert_rule fetch_card_row fetch_delivery_rule_row
    find top require_matching_card_account require_matching_item_account item_account_id newest_item
    create_card insert_card normalize_content_type mem lower strip new_card update_delivery_rule
    set_rule refuse_card delete_card delete update resolve_delivery_rule
rule_survives = refl

intact : IsIntact shop.tables
unfolding mem find
intact = record { rules = tt; cards = (refl, tt) }

handle_all-IsIntact_example : IsIntact (handle_all loads requests shop).tables
handle_all-IsIntact_example = handle_all-IsIntact loads requests shop intact

handle_all-IsConsistent_example : IsConsistent (handle_all loads requests shop).tables
handle_all-IsConsistent_example =
    handle_all-IsConsistent loads requests shop (refl, (refl, (refl, (refl, tt))))
      (record { keys = tt; owners = tt })

create_delivery_rule-resolves_example :
    IsDelivered "lamp" "me" (create_delivery_rule rule_request shop).1.tables
unfolding handle_all handle create_delivery_rule insert_rule fetch_card_row fetch_delivery_rule_row
    find top require_matching_card_account require_matching_item_account item_account_id newest_item
    create_card insert_card normalize_content_type mem lower strip new_card update_delivery_rule
    set_rule refuse_card delete_card delete update resolve_delivery_rule update_card set_card
create_delivery_rule-resolves_example =
    create_delivery_rule-resolves rule_request shop new_row refl refl

handle_all-known_mode_example : image ≢ unknown
unfolding handle_all handle create_delivery_rule insert_rule fetch_card_row fetch_delivery_rule_row
    find top require_matching_card_account require_matching_item_account item_account_id newest_item
    create_card insert_card normalize_content_type mem lower strip new_card update_delivery_rule
    set_rule refuse_card delete_card delete update resolve_delivery_rule update_card set_card
handle_all-known_mode_example =
    handle_all-known_mode loads requests shop "lamp" "me"
      (record { mode = image; content = "p.png"; card_id = 2; rule_id = 1 }) intact refl

-- The card of a rule goes to another account: the rule stays and delivers nothing any more.
card_leaves :
    let w =
      handle_all loads
        (post_rule rule_request
          ∷ put_card 1 (record card_request { content_type = "text"; account_id = "you" })
          ∷ [])
        shop in
    (w.tables.delivery_rules ≡ new_row ∷ [])
    × (resolve_delivery_rule "lamp" "me" w.tables ≡ none)
    × (resolve_delivery_rule "lamp" "you" w.tables ≡ none)
unfolding handle_all handle create_delivery_rule insert_rule fetch_card_row fetch_delivery_rule_row
    find top require_matching_card_account require_matching_item_account item_account_id newest_item
    create_card insert_card normalize_content_type mem lower strip new_card update_delivery_rule
    set_rule refuse_card delete_card delete update resolve_delivery_rule update_card set_card
card_leaves = (refl, refl, refl)
