-- ===== src/Api/Shipping/Requests.antt =====
-- app/api/routers/shipping.py: the requests that change cards and rules, each with what it leaves.
use xianyu_manager.Api.{Answer, Failure, answered, not_found, refused, unprocessable}
use xianyu_manager.Api.Table.{delete, next_id, update}
use xianyu_manager.Api.Shipping.{
  DeliveryCardRequest, DeliveryRuleCreateRequest, DeliveryRuleUpdateRequest, World,
  allowed_card_content_types, card_key, fetch_card_row, fetch_delivery_rule_row,
  require_matching_card_account, require_matching_item_account, rule_key, validate_yifan_content,
}
use xianyu_manager.Runtime.MessagePipeline.Values.{Json}
use xianyu_manager.Services.Shipping.{Database, DeliveryCard, DeliveryRule}
use xianyu_manager.Dict.{is_some, mem}
use xianyu_manager.Text.{lower, strip}
use xianyu_manager.Prelude.{
  Option, String, [], if◌then◌else◌, none, not, some, ℕ, ◌++◌, ◌==◌, ◌||◌, ◌∷◌,
}

abbrev pub with_tables : Database → World → World
with_tables db w = record w { tables = db }

abbrev pub card_not_found : Failure
card_not_found = not_found "Card not found"

abbrev pub rule_not_found : Failure
rule_not_found = not_found "Delivery rule not found"

-- `_require_card_row` and `_require_delivery_rule_row`, after the statement that led to the tables.
abbrev pub returned {ℓ} : {A : Type ℓ} → Failure → Option A → World → World → Answer A × World
returned missing none before after = (refused missing, before)
returned missing (some row) before after = (answered row, after)

-- A check that raises its failure, or lets the request go on.
abbrev pub unless {ℓ} : {A : Type ℓ} → Option Failure → World → Answer A × World → Answer A × World
unless (some e) w rest = (refused e, w)
unless none w rest = rest

-- The same for a row that has to be there.
abbrev pub require {ℓ κ} :
    {R : Type ℓ} {A : Type κ}
    → Option R
    → Failure
    → World
    → (R → Answer A × World)
    → Answer A × World
require none missing w rest = (refused missing, w)
require (some row) missing w rest = rest row

unfoldable pub new_card : String → DeliveryCardRequest → ℕ → DeliveryCard
new_card content_type payload id = record {
  id = id;
  name = payload.name;
  content_type = content_type;
  content = payload.content;
  account_id = payload.account_id;
}

unfoldable pub insert_card : String → DeliveryCardRequest → World → Answer DeliveryCard × World
unfolding new_card fetch_card_row
insert_card content_type payload w =
    let row_id = next_id card_key w.tables.delivery_cards in
    let tables = record w.tables {
      delivery_cards = w.tables.delivery_cards ++ new_card content_type payload row_id ∷ [];
    } in
    returned card_not_found (fetch_card_row row_id tables) w (with_tables tables w)

unfoldable pub set_card : ℕ → String → DeliveryCardRequest → World → Answer DeliveryCard × World
unfolding new_card fetch_card_row
set_card card_id content_type payload w =
    let tables = record w.tables {
      delivery_cards =
          update card_key card_id (λ c. new_card content_type payload c.id) w.tables.delivery_cards;
    } in
    if is_some (fetch_card_row card_id w.tables)
    then returned card_not_found (fetch_card_row card_id tables) w (with_tables tables w)
    else (refused card_not_found, w)

-- `ON DELETE CASCADE` of the rules' `card_id`.
unfoldable pub delete_card : ℕ → World → Answer {0} Unit × World
unfolding fetch_card_row
delete_card card_id w =
    if is_some (fetch_card_row card_id w.tables)
    then (
      answered tt,
      with_tables
          (record w.tables {
            delivery_cards = delete card_key card_id w.tables.delivery_cards;
            delivery_rules = delete (λ r. r.card_id) card_id w.tables.delivery_rules;
          })
          w,
    )
    else (refused card_not_found, w)

unfoldable pub get_card : ℕ → World → Answer DeliveryCard
unfolding fetch_card_row
get_card card_id w = elim (fetch_card_row card_id w.tables) [
  | none ↦ refused card_not_found
  | some row ↦ answered row
]

abbrev pub new_rule : DeliveryRuleCreateRequest → ℕ → DeliveryRule
new_rule payload id = record {
  id = id;
  item_id = payload.item_id;
  card_id = payload.card_id;
  priority = payload.priority;
  enabled = payload.enabled;
  account_id = payload.account_id;
}

unfoldable pub insert_rule : DeliveryRuleCreateRequest → World → Answer DeliveryRule × World
unfolding fetch_delivery_rule_row
insert_rule payload w =
    let row_id = next_id rule_key w.tables.delivery_rules in
    let tables = record w.tables {
      delivery_rules = w.tables.delivery_rules ++ new_rule payload row_id ∷ [];
    } in
    returned rule_not_found (fetch_delivery_rule_row row_id tables) w (with_tables tables w)

unfoldable pub create_delivery_rule :
    DeliveryRuleCreateRequest → World → Answer DeliveryRule × World
unfolding insert_rule fetch_card_row require_matching_card_account require_matching_item_account
create_delivery_rule payload w =
    require (fetch_card_row payload.card_id w.tables) card_not_found w (λ card_row.
      unless (require_matching_card_account card_row payload.account_id) w (
        unless (require_matching_item_account payload.item_id payload.account_id w.items) w
          (insert_rule payload w)))

abbrev pub or_else {ℓ} : {A : Type ℓ} → Option A → A → A
or_else none x = x
or_else (some y) _ = y

-- The columns that `SET` names.
abbrev pub assigned : DeliveryRuleUpdateRequest → DeliveryRule → DeliveryRule
assigned payload r = record r {
  card_id = or_else payload.card_id r.card_id;
  priority = or_else payload.priority r.priority;
  enabled = or_else payload.enabled r.enabled;
}

unfoldable pub set_rule : ℕ → DeliveryRuleUpdateRequest → World → Answer DeliveryRule × World
unfolding fetch_delivery_rule_row
set_rule rule_id payload w =
    let tables = record w.tables {
      delivery_rules = update rule_key rule_id (assigned payload) w.tables.delivery_rules;
    } in
    returned rule_not_found (fetch_delivery_rule_row rule_id tables) w (with_tables tables w)

-- The check of the card that a request names, if it names one.
unfoldable pub refuse_card : Option ℕ → String → Database → Option Failure
unfolding fetch_card_row require_matching_card_account
refuse_card none account_id db = none
refuse_card (some card_id) account_id db = elim (fetch_card_row card_id db) [
  | none ↦ some card_not_found
  | some card_row ↦ require_matching_card_account card_row account_id
]

unfoldable pub update_delivery_rule :
    ℕ → DeliveryRuleUpdateRequest → World → Answer DeliveryRule × World
unfolding set_rule refuse_card fetch_delivery_rule_row
update_delivery_rule rule_id payload w =
    if not (is_some payload.card_id || is_some payload.priority || is_some payload.enabled)
    then (refused (unprocessable "At least one delivery rule field must be provided"), w)
    else require (fetch_delivery_rule_row rule_id w.tables) rule_not_found w (λ existing_rule.
      unless (refuse_card payload.card_id existing_rule.account_id w.tables) w
        (set_rule rule_id payload w))

unfoldable pub delete_delivery_rule : ℕ → World → Answer {0} Unit × World
unfolding fetch_delivery_rule_row
delete_delivery_rule rule_id w =
    if is_some (fetch_delivery_rule_row rule_id w.tables)
    then (
      answered tt,
      with_tables
          (record w.tables { delivery_rules = delete rule_key rule_id w.tables.delivery_rules }) w,
    )
    else (refused rule_not_found, w)

module _ (loads : String → Option Json) where
  -- The type in lower case and without space, or the failure.
  unfoldable pub normalize_content_type : String → String → Option Failure × String
  unfolding mem lower strip validate_yifan_content
  normalize_content_type content_type content =
      let normalized = lower (strip content_type) in
      if not (mem normalized allowed_card_content_types)
      then (
        some (unprocessable "content_type must be one of: text, data, api, image, yifan"),
        normalized,
      )
      else if normalized == "yifan"
      then (validate_yifan_content (loads content), normalized)
      else (none, normalized)

  unfoldable pub create_card : DeliveryCardRequest → World → Answer DeliveryCard × World
  unfolding normalize_content_type insert_card
  create_card payload w =
      let (failure, content_type) = normalize_content_type payload.content_type payload.content in
      unless failure w (insert_card content_type payload w)

  unfoldable pub update_card : ℕ → DeliveryCardRequest → World → Answer DeliveryCard × World
  unfolding normalize_content_type set_card
  update_card card_id payload w =
      let (failure, content_type) = normalize_content_type payload.content_type payload.content in
      unless failure w (set_card card_id content_type payload w)
