-- ===== src/Services/Shipping.antt =====
-- app/services/shipping.py: which delivery a rule gives for an item of an account. The tables are lists
-- of rows; `id` is the primary key of each. The ids and times that SQLite gives to the rows of
-- delivery_logs are left out.
pub mod Best
pub mod Choice
mod Examples
use xianyu_manager.Dict.{Dict, is_some, lookup}
use xianyu_manager.Prelude.{
  ◌&&◌, ◌++◌, ◌==◌, ◌==ℕ◌, Bool, List, Option, String, [], false, if◌then◌else◌, ltb, negsuc, none,
  not, pos, some, true, ◌||◌, ℕ, ℤ, ◌∷◌,
}
use xianyu_manager.Text.{lower, strip}

pub data DeliveryMode : Type 0 where
  text batch_data api_card image yifan unknown : DeliveryMode

abbrev pub mode_aliases : Dict DeliveryMode
mode_aliases =
    ("text", text)
    ∷ ("data", batch_data)
    ∷ ("batch_data", batch_data)
    ∷ ("api", api_card)
    ∷ ("api_card", api_card)
    ∷ ("image", image)
    ∷ ("yifan", yifan)
    ∷ []

pub record DeliveryAction : Type 0 where
  pub mode : DeliveryMode
  pub content : String
  pub card_id : ℕ
  pub rule_id : ℕ

pub record DeliveryRule : Type 0 where
  pub id : ℕ
  pub item_id : String
  pub card_id : ℕ
  pub priority : ℤ
  pub enabled : Bool
  pub account_id : String

pub record DeliveryCard : Type 0 where
  pub id : ℕ
  pub name : String
  pub content_type : String
  pub content : String
  pub account_id : String

pub record DeliveryLog : Type 0 where
  pub order_id : String
  pub card_id : ℕ
  pub status : String

pub record Database : Type 0 where
  pub delivery_rules : List DeliveryRule
  pub delivery_cards : List DeliveryCard
  pub delivery_logs : List DeliveryLog

abbrev pub ltb_ℤ : ℤ → ℤ → Bool
ltb_ℤ (pos a) (pos b) = ltb a b
ltb_ℤ (pos _) (negsuc _) = false
ltb_ℤ (negsuc _) (pos _) = true
ltb_ℤ (negsuc a) (negsuc b) = ltb b a

-- `ORDER BY dr.priority DESC, dr.id ASC`
unfoldable pub comes_before : DeliveryRule → DeliveryRule → Bool
comes_before r s =
    ltb_ℤ s.priority r.priority || (not (ltb_ℤ r.priority s.priority) && ltb r.id s.id)

module _ (item_id account_id : String) where
  -- `ON dr.card_id = dc.id WHERE ...`
  unfoldable pub is_selected : DeliveryRule → DeliveryCard → Bool
  is_selected r c =
      (r.card_id ==ℕ c.id)
      && r.item_id == item_id
      && r.enabled
      && r.account_id == account_id
      && c.account_id == account_id

  unfoldable pub join_cards : DeliveryRule → List DeliveryCard → List (DeliveryRule × DeliveryCard)
  unfolding is_selected
  join_cards r [] = []
  join_cards r (c ∷ cs) =
      let rest = join_cards r cs in if is_selected r c then (r, c) ∷ rest else rest

  unfoldable pub join : List DeliveryRule → List DeliveryCard → List (DeliveryRule × DeliveryCard)
  unfolding join_cards
  join [] cs = []
  join (r ∷ rs) cs = join_cards r cs ++ join rs cs

-- The first row in the order, of one row and the first of the others.
unfoldable pub earlier :
    DeliveryRule × DeliveryCard
    → Option (DeliveryRule × DeliveryCard)
    → Option (DeliveryRule × DeliveryCard)
unfolding comes_before
earlier p none = some p
earlier p (some q) = if comes_before q.0 p.0 then some q else some p

-- `ORDER BY ... LIMIT 1`
unfoldable pub first_row : List (DeliveryRule × DeliveryCard) → Option (DeliveryRule × DeliveryCard)
unfolding earlier
first_row [] = none
first_row (p ∷ ps) = earlier p (first_row ps)

-- `_MODE_ALIASES.get(content_type)`, where no mode becomes `UNKNOWN`.
unfoldable pub mode_of : String → DeliveryMode
unfolding lookup lower strip
mode_of content_type = elim (lookup (lower (strip content_type)) mode_aliases) [
  | some mode ↦ mode
  | none ↦ unknown
]

unfoldable pub action_of : DeliveryRule × DeliveryCard → DeliveryAction
unfolding mode_of
action_of (r, c) = record {
  mode = mode_of c.content_type;
  content = c.content;
  card_id = c.id;
  rule_id = r.id;
}

unfoldable pub resolve_delivery_rule : String → String → Database → Option DeliveryAction
unfolding first_row join action_of
resolve_delivery_rule item_id account_id db =
    elim (first_row (join item_id account_id db.delivery_rules db.delivery_cards)) [
      | none ↦ none
      | some row ↦ some (action_of row)
    ]

-- The order and the buyer are only logged.
unfoldable pub execute_delivery : String → String → String → String → Database → Bool
unfolding resolve_delivery_rule
execute_delivery order_id item_id account_id buyer_id db =
    is_some (resolve_delivery_rule item_id account_id db)

unfoldable pub log_delivery : String → ℕ → String → Database → Database
log_delivery order_id card_id status db = record db {
  delivery_logs =
      db.delivery_logs ++ record { order_id = order_id; card_id = card_id; status = status } ∷ [];
}
