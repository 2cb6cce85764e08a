-- ===== src/Services/Shipping/Examples.antt =====
-- A shop with three rules for an item, and the theorem at it.
use xianyu_manager.Text.{lower, strip}
use xianyu_manager.Dict.{lookup}
use xianyu_manager.Prelude.{
  String, [], false, negsuc, none, pos, refl, some, true, ℕ, ℤ, ◌∷◌, ◌≡◌, ◌⊎◌,
}
use xianyu_manager.Services.Shipping.Choice.{IsChoice, IsUnserved, resolve_delivery_rule-IsChoice}
use xianyu_manager.Services.Shipping.{
  Database, DeliveryAction, DeliveryCard, DeliveryRule, action_of, api_card, comes_before, earlier,
  execute_delivery, first_row, is_selected, join, join_cards, log_delivery, mode_of,
  resolve_delivery_rule,
}

abbrev rule : ℕ → ℕ → ℤ → DeliveryRule
rule id card_id priority = record {
  id = id;
  item_id = "lamp";
  card_id = card_id;
  priority = priority;
  enabled = true;
  account_id = "me";
}

abbrev card : ℕ → String → DeliveryCard
card id content_type = record {
  id = id;
  name = "";
  content_type = content_type;
  content = "code 17";
  account_id = "me";
}

abbrev shop : Database
shop = record {
  delivery_rules = rule 1 1 (negsuc 4) ∷ rule 2 2 (pos 3) ∷ rule 3 1 (pos 3) ∷ [];
  delivery_cards = card 1 "text" ∷ card 2 " API" ∷ [];
  delivery_logs = [];
}

resolved :
    resolve_delivery_rule "lamp" "me" shop
    ≡ some (record { mode = api_card; content = "code 17"; card_id = 2; rule_id = 2 })
unfolding resolve_delivery_rule first_row join join_cards is_selected earlier comes_before action_of
    mode_of lookup lower strip
resolved = refl

delivered_and_logged :
    (execute_delivery "o" "lamp" "you" "b" shop ≡ false)
    × ((log_delivery "o" 2 "sent" shop).delivery_logs
        ≡ record { order_id = "o"; card_id = 2; status = "sent" } ∷ [])
unfolding execute_delivery log_delivery resolve_delivery_rule first_row join join_cards is_selected
    earlier comes_before
delivered_and_logged = (refl, refl)

resolve_delivery_rule-IsChoice_example :
    ((resolve_delivery_rule "lamp" "me" shop ≡ none) × IsUnserved "lamp" "me" shop)
    ⊎ ((a : DeliveryAction) × (resolve_delivery_rule "lamp" "me" shop ≡ some a)
        × IsChoice "lamp" "me" a shop)
resolve_delivery_rule-IsChoice_example = resolve_delivery_rule-IsChoice "lamp" "me" shop
