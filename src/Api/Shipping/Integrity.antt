-- ===== src/Api/Shipping/Integrity.antt =====
-- app/api/routers/shipping.py: what the tables keep over any requests.
use xianyu_manager.Api.{Failure}
use xianyu_manager.Api.Table.{delete, find, update}
use xianyu_manager.Api.Table.Laws.{
  find-append, find-delete, find-update, All-snoc, All-update, All-delete,
}
use xianyu_manager.Api.Shipping.{
  DeliveryRuleUpdateRequest, World, allowed_card_content_types, card_key, fetch_card_row, rule_key,
  require_matching_card_account,
}
use xianyu_manager.Api.Shipping.Requests.{
  new_card, new_rule, refuse_card, assigned, or_else, card_not_found,
}
use xianyu_manager.Runtime.MessagePipeline.Values.{Json}
use xianyu_manager.Services.Shipping.{Database, DeliveryCard, DeliveryRule}
use xianyu_manager.Dict.{is_some, mem}
use xianyu_manager.Api.Shipping.Changes.{
  Change, Request, handle, handle_all, handle-Change, IsKnown, nothing, card_added, card_set,
  card_deleted, rule_added, rule_set, rule_deleted, sets_card,
}
use xianyu_manager.Prelude.{
  Bool, List, Option, String, [], false, none, some, true, ℕ, ◌++◌, ◌==ℕ◌, ◌∷◌, ◌≡◌, refl, arith,
  All, All-imp, ap,
}

-- A rule whose card is there.
abbrev pub has_card : List DeliveryCard → DeliveryRule → Bool
has_card cards r = is_some (find card_key r.card_id cards)

-- Every rule has its card, and every card a type that the service knows.
pub record IsIntact (db : Database) : Type 0 where
  pub rules : All (λ r. has_card db.delivery_cards r ≡ true) db.delivery_rules
  pub cards : All (λ c. mem c.content_type allowed_card_content_types ≡ true) db.delivery_cards

has_card-append :
    (cards : List DeliveryCard) (c : DeliveryCard) (r : DeliveryRule)
    → has_card cards r ≡ true
    → has_card (cards ++ c ∷ []) r ≡ true
has_card-append cards c r h = ground (arith, find-append card_key r.card_id cards (c ∷ []))

has_card-update :
    (cards : List DeliveryCard) (id : ℕ) (f : DeliveryCard → DeliveryCard) (r : DeliveryRule)
    → ((c : DeliveryCard) → card_key (f c) ≡ card_key c)
    → has_card cards r ≡ true
    → has_card (update card_key id f cards) r ≡ true
has_card-update cards id f r same h = ground (arith, find-update card_key id r.card_id f cards same)

-- The rules that are left when a card goes have theirs.
has_card-delete :
    (cards : List DeliveryCard) (id : ℕ) (r : DeliveryRule)
    → (r.card_id ==ℕ id) ≡ false
    → has_card cards r ≡ true
    → has_card (delete card_key id cards) r ≡ true
has_card-delete cards id r other h = ground (arith, find-delete card_key id r.card_id cards)

IsKnownCard : DeliveryCard → Type 0
IsKnownCard c = IsKnown c.content_type

-- The rule of an update keeps its card or has one that was found.
assigned-has_card :
    (db : Database) (q : DeliveryRuleUpdateRequest) (account_id : String) (r : DeliveryRule)
    → refuse_card q.card_id account_id db ≡ none
    → has_card db.delivery_cards r ≡ true
    → has_card db.delivery_cards (assigned q r) ≡ true
unfolding refuse_card fetch_card_row
assigned-has_card db q account_id r h k = by_card q.card_id h
  where
    by_card :
        (o : Option ℕ)
        → refuse_card o account_id db ≡ none
        → is_some (find card_key (or_else o r.card_id) db.delivery_cards) ≡ true
    by_card none g = k
    by_card (some id) g = found (find card_key id db.delivery_cards) g
      where
        found :
            (c : Option DeliveryCard)
            → elim c as (λ _. Option Failure) [
              | none ↦ some card_not_found
              | some card_row ↦ require_matching_card_account card_row account_id
            ]
              ≡ none
            → is_some c ≡ true
        found none g = absurd (ground arith)
        found (some c) g = refl

Change-IsIntact : (b : Bool) (w w' : World) → Change b w w' → IsIntact w.tables → IsIntact w'.tables
unfolding IsKnownCard new_card
Change-IsIntact b w w' nothing k = k
Change-IsIntact b w w' (card_added content_type q id h new) k = record {
  rules =
      All-imp (λ r. has_card w.tables.delivery_cards r ≡ true)
        (λ r. has_card (w.tables.delivery_cards ++ new_card content_type q id ∷ []) r ≡ true)
        w.tables.delivery_rules
        (λ r. has_card-append w.tables.delivery_cards (new_card content_type q id) r) k.rules;
  cards = All-snoc IsKnownCard w.tables.delivery_cards (new_card content_type q id) k.cards h;
}
Change-IsIntact b w w' (card_set content_type q id h may) k = record {
  rules =
      All-imp (λ r. has_card w.tables.delivery_cards r ≡ true)
        (λ r.
          has_card (update card_key id (λ c. new_card content_type q c.id) w.tables.delivery_cards)
            r
          ≡ true)
        w.tables.delivery_rules
        (λ r.
          has_card-update w.tables.delivery_cards id (λ c. new_card content_type q c.id) r
            (λ c. refl))
        k.rules;
  cards =
      All-update card_key IsKnownCard IsKnownCard id (λ c. new_card content_type q c.id)
        w.tables.delivery_cards (λ c _ _. h) (λ c _ g. g) k.cards;
}
Change-IsIntact b w w' (card_deleted id) k = record {
  rules =
      All-delete (λ r. r.card_id) (λ r. has_card w.tables.delivery_cards r ≡ true)
        (λ r. has_card (delete card_key id w.tables.delivery_cards) r ≡ true) id
        w.tables.delivery_rules (λ r. has_card-delete w.tables.delivery_cards id r) k.rules;
  cards =
      All-delete card_key IsKnownCard IsKnownCard id w.tables.delivery_cards (λ c _ h. h) k.cards;
}
Change-IsIntact b w w' (rule_added q id card found own new) k = record {
  rules =
      All-snoc (λ r. has_card w.tables.delivery_cards r ≡ true) w.tables.delivery_rules
        (new_rule q id) k.rules (ap is_some found);
  cards = k.cards;
}
Change-IsIntact b w w' (rule_set q id r found free) k = record {
  rules =
      All-update rule_key (λ r. has_card w.tables.delivery_cards r ≡ true)
        (λ r. has_card w.tables.delivery_cards r ≡ true) id (assigned q) w.tables.delivery_rules
        (λ x _. assigned-has_card w.tables q r.account_id x free) (λ x _ g. g) k.rules;
  cards = k.cards;
}
Change-IsIntact b w w' (rule_deleted id) k = record {
  rules =
      All-delete rule_key (λ r. has_card w.tables.delivery_cards r ≡ true)
        (λ r. has_card w.tables.delivery_cards r ≡ true) id w.tables.delivery_rules (λ r _ h. h)
        k.rules;
  cards = k.cards;
}

-- Over any requests, refused ones included, every rule has its card, and every card a type that the
-- delivery knows; the cards of a database that was so stay so.
pub handle_all-IsIntact :
    (loads : String → Option Json) (qs : List Request) (w : World)
    → IsIntact w.tables
    → IsIntact (handle_all loads qs w).tables
unfolding handle_all
handle_all-IsIntact loads [] w h = h
handle_all-IsIntact loads (q ∷ qs) w h =
    handle_all-IsIntact loads qs (handle loads q w)
      (Change-IsIntact (sets_card q) w (handle loads q w) (handle-Change loads q w) h)
