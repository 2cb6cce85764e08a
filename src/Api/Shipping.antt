-- ===== src/Api/Shipping.antt =====
-- app/api/routers/shipping.py: the requests on cards and rules of delivery, over the tables of
-- Services/Shipping. Tables are in the order of their ids. An id below zero is one that no row has. The
-- times of rows are left out; `json.loads` is a parameter, `none` where it raises.
pub mod Requests
pub mod Changes
pub mod Integrity
pub mod Ownership
pub mod Deliveries
mod Examples
use xianyu_manager.Api.{Answer, Failure, answered, forbidden, not_found, refused, unprocessable}
use xianyu_manager.Api.Table.{delete, find, next_id, update}
use xianyu_manager.Runtime.MessagePipeline.Values.{Json, get, json_dict, json_text}
use xianyu_manager.Services.Shipping.{
  Database, DeliveryCard, DeliveryLog, DeliveryRule, comes_before,
}
use xianyu_manager.Dict.{mem}
use xianyu_manager.Text.{lower, strip}
use xianyu_manager.Prelude.{
  Bool, List, Option, String, [], false, if◌then◌else◌, ltb, none, not, some, true, ℕ, ℤ, ◌++◌,
  ◌==◌, ◌==ℕ◌, ◌||◌, ◌&&◌, ◌∷◌, zero, suc,
}

-- A row of `items`, which these requests only read.
pub record ItemRow : Type 0 where
  pub id : ℕ
  pub item_id : String
  pub account_id : String

pub record World : Type 0 where
  pub tables : Database
  pub items : List ItemRow

pub record DeliveryCardRequest : Type 0 where
  pub name : String
  pub content_type : String
  pub content : String
  pub account_id : String

pub record DeliveryRuleCreateRequest : Type 0 where
  pub item_id : String
  pub card_id : ℕ
  pub account_id : String
  pub priority : ℤ
  pub enabled : Bool

pub record DeliveryRuleUpdateRequest : Type 0 where
  pub card_id : Option ℕ
  pub priority : Option ℤ
  pub enabled : Option Bool

abbrev pub allowed_card_content_types : List String
allowed_card_content_types = "text" ∷ "data" ∷ "api" ∷ "image" ∷ "yifan" ∷ []

abbrev pub card_key : DeliveryCard → ℕ
card_key c = c.id

abbrev pub rule_key : DeliveryRule → ℕ
rule_key r = r.id

unfoldable pub fetch_card_row : ℕ → Database → Option DeliveryCard
fetch_card_row id db = find card_key id db.delivery_cards

unfoldable pub fetch_delivery_rule_row : ℕ → Database → Option DeliveryRule
fetch_delivery_rule_row id db = find rule_key id db.delivery_rules

-- `none` where the accounts match.
unfoldable pub require_matching_card_account : DeliveryCard → String → Option Failure
require_matching_card_account c account_id =
    if c.account_id == account_id
    then none
    else some (forbidden "Card account does not match the requested account")

-- `WHERE item_id = ? ORDER BY id DESC LIMIT 1`
unfoldable pub newest_item : String → List ItemRow → Option ItemRow
newest_item item_id [] = none
newest_item item_id (i ∷ items) = elim (newest_item item_id items) [
  | none ↦ if i.item_id == item_id then some i else none
  | some j ↦ if (i.item_id == item_id) && ltb j.id i.id then some i else some j
]

unfoldable pub item_account_id : String → List ItemRow → Option String
unfolding newest_item
item_account_id item_id items = elim (newest_item item_id items) [
  | none ↦ none
  | some i ↦ some i.account_id
]

unfoldable pub require_matching_item_account : String → String → List ItemRow → Option Failure
unfolding item_account_id
require_matching_item_account item_id account_id items = elim (item_account_id item_id items) [
  | none ↦ none
  | some item_account ↦
      if item_account == account_id
      then none
      else some (forbidden "Item account does not match the requested account")
]

-- Whether a field is a text that is not blank.
abbrev pub is_text : Option Json → Bool
is_text (some (json_text s)) = not (strip s == "")
is_text _ = false

unfoldable pub validate_yifan_content : Option Json → Option Failure
unfolding get
validate_yifan_content none = some (unprocessable "Yifan content must be valid JSON")
validate_yifan_content (some (json_dict payload)) =
    if not (is_text (get "callback_url" payload))
    then some (unprocessable "Yifan content requires non-empty callback_url")
    else if not (is_text (get "merchant_id" payload))
    then some (unprocessable "Yifan content requires non-empty merchant_id")
    else none
validate_yifan_content (some _) = some (unprocessable "Yifan content must be a JSON object")

-- `_list_cards`
unfoldable pub list_cards : String → List DeliveryCard → List DeliveryCard
list_cards account_id [] = []
list_cards account_id (c ∷ cs) =
    let rest = list_cards account_id cs in if c.account_id == account_id then c ∷ rest else rest

-- `ORDER BY dr.priority DESC, dr.id ASC`
unfoldable pub place_rule : DeliveryRule → List DeliveryRule → List DeliveryRule
place_rule r [] = r ∷ []
place_rule r (s ∷ rs) =
    let rest = place_rule r rs in if comes_before s r then s ∷ rest else r ∷ s ∷ rs

unfoldable pub ordered_rules : List DeliveryRule → List DeliveryRule
unfolding place_rule
ordered_rules [] = []
ordered_rules (r ∷ rs) = place_rule r (ordered_rules rs)

-- `LEFT JOIN delivery_cards dc ON dc.id = dr.card_id`
unfoldable pub with_cards : List DeliveryRule → Database → List (DeliveryRule × Option DeliveryCard)
unfolding fetch_card_row
with_cards [] db = []
with_cards (r ∷ rs) db = (r, fetch_card_row r.card_id db) ∷ with_cards rs db

unfoldable pub list_rules : Database → List (DeliveryRule × Option DeliveryCard)
unfolding with_cards ordered_rules
list_rules db = with_cards (ordered_rules db.delivery_rules) db

-- `ORDER BY id DESC LIMIT 50`, where the logs are in the order in which they came.
unfoldable pub newest_first : List DeliveryLog → List DeliveryLog → List DeliveryLog
newest_first [] newer = newer
newest_first (l ∷ ls) newer = newest_first ls (l ∷ newer)

unfoldable pub first_logs : ℕ → List DeliveryLog → List DeliveryLog
first_logs zero ls = []
first_logs (suc n) [] = []
first_logs (suc n) (l ∷ ls) = l ∷ first_logs n ls

unfoldable pub list_logs : Database → List DeliveryLog
unfolding newest_first first_logs
list_logs db = first_logs 50 (newest_first db.delivery_logs [])
