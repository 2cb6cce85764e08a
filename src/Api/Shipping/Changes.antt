-- ===== src/Api/Shipping/Changes.antt =====
-- app/api/routers/shipping.py: the changes of the tables that a request may make, each with what was
-- tested before it.
use xianyu_manager.Text.{lower, strip}
use xianyu_manager.Api.{Answer, Failure, unprocessable}
use xianyu_manager.Api.Table.{delete, find, next_id, update}
use xianyu_manager.Api.Shipping.{
  DeliveryCardRequest, DeliveryRuleCreateRequest, DeliveryRuleUpdateRequest, World,
  allowed_card_content_types, card_key, fetch_card_row, fetch_delivery_rule_row, rule_key,
  require_matching_card_account, require_matching_item_account, validate_yifan_content,
}
use xianyu_manager.Api.Shipping.Requests.{
  create_card, create_delivery_rule, delete_card, delete_delivery_rule, insert_card, insert_rule,
  new_card, new_rule, normalize_content_type, refuse_card, set_card, set_rule, update_card,
  update_delivery_rule, assigned, unless, require, returned,
}
use xianyu_manager.Runtime.MessagePipeline.Values.{Json}
use xianyu_manager.Services.Shipping.{DeliveryCard, DeliveryRule}
use xianyu_manager.Dict.{mem}
use xianyu_manager.Api.Table.Laws.{find-above}
use xianyu_manager.Prelude.{
  Bool, List, Option, String, [], false, if◌then◌else◌, none, not, some, true, ℕ, ◌++◌, ◌==◌, ◌∷◌,
  ◌≡◌, refl, arith,
}

abbrev pub with_cards : List DeliveryCard → World → World
with_cards cards w = record w { tables = record w.tables { delivery_cards = cards } }

abbrev pub with_rules : List DeliveryRule → World → World
with_rules rules w = record w { tables = record w.tables { delivery_rules = rules } }

abbrev pub IsKnown : String → Type 0
IsKnown content_type = mem content_type allowed_card_content_types ≡ true

-- `may_set` is whether the columns of a card may change.
pub data Change (may_set : Bool) (w : World) : World → Type 0 where
  nothing : Change may_set w w
  card_added :
      (content_type : String) (q : DeliveryCardRequest) (id : ℕ)
      → IsKnown content_type
      → find card_key id w.tables.delivery_cards ≡ none
      → Change may_set w (with_cards (w.tables.delivery_cards ++ new_card content_type q id ∷ []) w)
  card_set :
      (content_type : String) (q : DeliveryCardRequest) (id : ℕ)
      → IsKnown content_type
      → may_set ≡ true
      → Change may_set w (
          with_cards
            (update card_key id (λ c. new_card content_type q c.id) w.tables.delivery_cards)
            w)
  card_deleted :
      (id : ℕ)
      → Change may_set w (
          with_rules
            (delete (λ r. r.card_id) id w.tables.delivery_rules)
            (with_cards (delete card_key id w.tables.delivery_cards) w))
  rule_added :
      (q : DeliveryRuleCreateRequest) (id : ℕ) (card : DeliveryCard)
      → find card_key q.card_id w.tables.delivery_cards ≡ some card
      → (card.account_id == q.account_id) ≡ true
      → find rule_key id w.tables.delivery_rules ≡ none
      → Change may_set w (with_rules (w.tables.delivery_rules ++ new_rule q id ∷ []) w)
  rule_set :
      (q : DeliveryRuleUpdateRequest) (id : ℕ) (r : DeliveryRule)
      → find rule_key id w.tables.delivery_rules ≡ some r
      → refuse_card q.card_id r.account_id w.tables ≡ none
      → Change may_set w (with_rules (update rule_key id (assigned q) w.tables.delivery_rules) w)
  rule_deleted :
      (id : ℕ) → Change may_set w (with_rules (delete rule_key id w.tables.delivery_rules) w)

pub data Request : Type 0 where
  post_card : DeliveryCardRequest → Request
  put_card : ℕ → DeliveryCardRequest → Request
  remove_card : ℕ → Request
  post_rule : DeliveryRuleCreateRequest → Request
  put_rule : ℕ → DeliveryRuleUpdateRequest → Request
  remove_rule : ℕ → Request

module _ (loads : String → Option Json) where
  unfoldable pub handle : Request → World → World
  handle (post_card q) w = (create_card loads q w).1
  handle (put_card id q) w = (update_card loads id q w).1
  handle (remove_card id) w = (delete_card id w).1
  handle (post_rule q) w = (create_delivery_rule q w).1
  handle (put_rule id q) w = (update_delivery_rule id q w).1
  handle (remove_rule id) w = (delete_delivery_rule id w).1

  unfoldable pub handle_all : List Request → World → World
  unfolding handle
  handle_all [] w = w
  handle_all (q ∷ qs) w = handle_all qs (handle q w)

-- What the tests of a type give.
abbrev tested : String → Bool → Bool → Option Failure → Option Failure × String
tested text allowed is_yifan o =
    if not allowed
    then (some (unprocessable "content_type must be one of: text, data, api, image, yifan"), text)
    else if is_yifan
    then (o, text)
    else (none, text)

tested-IsKnown :
    (text : String) (allowed is_yifan : Bool) (o : Option Failure)
    → mem text allowed_card_content_types ≡ allowed
    → (tested text allowed is_yifan o).0 ≡ none
    → IsKnown (tested text allowed is_yifan o).1
tested-IsKnown text false is_yifan o e g = absurd (ground arith)
tested-IsKnown text true false o e g = e
tested-IsKnown text true true o e g = e

module _ (loads : String → Option Json) where
  normalize-IsKnown :
      (content_type content : String)
      → (normalize_content_type loads content_type content).0 ≡ none
      → IsKnown (normalize_content_type loads content_type content).1
  unfolding normalize_content_type
  normalize-IsKnown content_type content h =
      tested-IsKnown (lower (strip content_type))
        (mem (lower (strip content_type)) allowed_card_content_types)
        (lower (strip content_type) == "yifan") (validate_yifan_content (loads content)) refl h

pub matching_account :
    (card : DeliveryCard) (account_id : String)
    → require_matching_card_account card account_id ≡ none
    → (card.account_id == account_id) ≡ true
unfolding require_matching_card_account
matching_account card account_id h = ground arith

module _ (may_set : Bool) where
  returned-Change :
      {A : Type 0} (missing : Failure) (o : Option A) (w w' : World)
      → Change may_set w w'
      → Change may_set w (returned missing o w w').1
  returned-Change missing none w w' h = nothing
  returned-Change missing (some x) w w' h = h

  if-Change :
      {A : Type 0} (b : Bool) (w : World) (x y : Answer A × World)
      → Change may_set w x.1
      → Change may_set w y.1
      → Change may_set w (if b then x else y).1
  if-Change true w x y h k = h
  if-Change false w x y h k = k

  unless-Change :
      {A : Type 0} (o : Option Failure) (w : World) (x : Answer A × World)
      → (o ≡ none → Change may_set w x.1)
      → Change may_set w (unless o w x).1
  unless-Change (some e) w x h = nothing
  unless-Change none w x h = h refl

  require-Change :
      {R A : Type 0} (o : Option R) (missing : Failure) (w : World) (f : R → Answer A × World)
      → ((row : R) → o ≡ some row → Change may_set w (f row).1)
      → Change may_set w (require o missing w f).1
  require-Change none missing w f h = nothing
  require-Change (some row) missing w f h = h row refl

  module _ (loads : String → Option Json) where
    create_card-Change :
        (q : DeliveryCardRequest) (w : World) → Change may_set w (create_card loads q w).1
    unfolding create_card insert_card
    create_card-Change q w = unless-Change _ w _ (λ free. returned-Change _ _ w _ (
        card_added _ q _ (normalize-IsKnown loads q.content_type q.content free) (
          find-above card_key (next_id card_key w.tables.delivery_cards) w.tables.delivery_cards
            (omega arith))))

    update_card-Change :
        (id : ℕ) (q : DeliveryCardRequest) (w : World)
        → may_set ≡ true
        → Change may_set w (update_card loads id q w).1
    unfolding update_card set_card
    update_card-Change id q w may = unless-Change _ w _ (λ free.
        if-Change _ w _ _
          (returned-Change _ _ w _
            (card_set _ q id (normalize-IsKnown loads q.content_type q.content free) may))
          nothing)

  delete_card-Change : (id : ℕ) (w : World) → Change may_set w (delete_card id w).1
  unfolding delete_card
  delete_card-Change id w = if-Change _ w _ _ (card_deleted id) nothing

  delete_delivery_rule-Change :
      (id : ℕ) (w : World) → Change may_set w (delete_delivery_rule id w).1
  unfolding delete_delivery_rule
  delete_delivery_rule-Change id w = if-Change _ w _ _ (rule_deleted id) nothing

  insert_rule-Change :
      (q : DeliveryRuleCreateRequest) (w : World) (card : DeliveryCard)
      → find card_key q.card_id w.tables.delivery_cards ≡ some card
      → (card.account_id == q.account_id) ≡ true
      → Change may_set w (insert_rule q w).1
  unfolding insert_rule
  insert_rule-Change q w card found own = returned-Change _ _ w _ (
      rule_added q _ card found own (
        find-above rule_key (next_id rule_key w.tables.delivery_rules) w.tables.delivery_rules
          (omega arith)))

  create_delivery_rule-Change :
      (q : DeliveryRuleCreateRequest) (w : World) → Change may_set w (create_delivery_rule q w).1
  unfolding create_delivery_rule fetch_card_row
  create_delivery_rule-Change q w = require-Change _ _ w _ (λ card found.
      unless-Change _ w _ (λ own.
        unless-Change (require_matching_item_account q.item_id q.account_id w.items) w
          (insert_rule q w)
          (λ _. insert_rule-Change q w card found (matching_account card q.account_id own))))

  update_delivery_rule-Change :
      (id : ℕ) (q : DeliveryRuleUpdateRequest) (w : World)
      → Change may_set w (update_delivery_rule id q w).1
  unfolding update_delivery_rule fetch_delivery_rule_row set_rule
  update_delivery_rule-Change id q w = if-Change _ w _ _ nothing (
      require-Change _ _ w _ (λ r found.
        unless-Change _ w _ (λ free. returned-Change _ _ w _ (rule_set q id r found free))))

abbrev pub sets_card : Request → Bool
sets_card (put_card _ _) = true
sets_card _ = false

pub handle-Change :
    (loads : String → Option Json) (q : Request) (w : World)
    → Change (sets_card q) w (handle loads q w)
unfolding handle
handle-Change loads (post_card q) w = create_card-Change false loads q w
handle-Change loads (put_card id q) w = update_card-Change true loads id q w refl
handle-Change loads (remove_card id) w = delete_card-Change false id w
handle-Change loads (post_rule q) w = create_delivery_rule-Change false q w
handle-Change loads (put_rule id q) w = update_delivery_rule-Change false id q w
handle-Change loads (remove_rule id) w = delete_delivery_rule-Change false id w
