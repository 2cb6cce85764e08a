-- ===== src/Api/Shipping/Ownership.antt =====
-- app/api/routers/shipping.py: rules and their cards belong to one account.
use xianyu_manager.Api.{Failure}
use xianyu_manager.Api.Table.{delete, find}
use xianyu_manager.Api.Table.Laws.{
  find-append, find-delete, IsKeyed, IsKeyed-append, IsKeyed-update, IsKeyed-delete,
  IsKeyed-delete_by, All-both, some_inj, All-snoc, All-update, All-delete,
}
use xianyu_manager.Api.Shipping.{
  DeliveryRuleUpdateRequest, World, card_key, fetch_card_row, rule_key,
  require_matching_card_account,
}
use xianyu_manager.Api.Shipping.Requests.{
  new_card, new_rule, refuse_card, assigned, or_else, card_not_found,
}
use xianyu_manager.Runtime.MessagePipeline.Values.{Json}
use xianyu_manager.Services.Shipping.{Database, DeliveryCard, DeliveryRule}
use xianyu_manager.Api.Shipping.Changes.{
  Change, Request, handle, handle_all, handle-Change, nothing, card_added, card_set, card_deleted,
  rule_added, rule_set, rule_deleted, sets_card,
}
use xianyu_manager.Prelude.{
  Bool, List, Option, String, [], false, none, some, true, ℕ, ◌++◌, ◌==ℕ◌, ◌∷◌, ◌≡◌, refl, arith,
  All, All-imp, ap, ◌==◌, subst, ◌∙◌, sym,
}

abbrev pub owned : Option DeliveryCard → String → Bool
owned none account_id = false
owned (some c) account_id = c.account_id == account_id

abbrev pub IsOwned : List DeliveryCard → DeliveryRule → Type 0
IsOwned cards r = owned (find card_key r.card_id cards) r.account_id ≡ true

-- The ids of rules are distinct, and every rule has a card of its own account.
pub record IsConsistent (db : Database) : Type 0 where
  pub keys : IsKeyed rule_key db.delivery_rules
  pub owners : All (IsOwned db.delivery_cards) db.delivery_rules

IsOwned-append :
    (cards : List DeliveryCard) (c : DeliveryCard) (r : DeliveryRule)
    → IsOwned cards r
    → IsOwned (cards ++ c ∷ []) r
IsOwned-append cards c r h = ground (arith, find-append card_key r.card_id cards (c ∷ []))

IsOwned-delete :
    (cards : List DeliveryCard) (id : ℕ) (r : DeliveryRule)
    → (r.card_id ==ℕ id) ≡ false
    → IsOwned cards r
    → IsOwned (delete card_key id cards) r
IsOwned-delete cards id r other h = ground (arith, find-delete card_key id r.card_id cards)

-- The rule of an update keeps its card or has one that belongs to its account.
assigned-IsOwned :
    (db : Database) (q : DeliveryRuleUpdateRequest) (r : DeliveryRule)
    → refuse_card q.card_id r.account_id db ≡ none
    → IsOwned db.delivery_cards r
    → IsOwned db.delivery_cards (assigned q r)
unfolding refuse_card fetch_card_row require_matching_card_account
assigned-IsOwned db q r h k = by_card q.card_id h
  where
    by_card :
        (o : Option ℕ)
        → refuse_card o r.account_id db ≡ none
        → owned (find card_key (or_else o r.card_id) db.delivery_cards) r.account_id ≡ true
    by_card none g = k
    by_card (some id) g = found (find card_key id db.delivery_cards) g
      where
        found :
            (c : Option DeliveryCard)
            → elim c as (λ _. Option Failure) [
              | none ↦ some card_not_found
              | some card_row ↦ require_matching_card_account card_row r.account_id
            ]
              ≡ none
            → owned c r.account_id ≡ true
        found none g = absurd (ground arith)
        found (some c) g = ground arith

same_row :
    (rules : List DeliveryRule) (id : ℕ) (r x : DeliveryRule)
    → (rule_key x ==ℕ id) ≡ true
    → find rule_key id rules ≡ some r
    → find rule_key (rule_key x) rules ≡ some x
    → r ≡ x
same_row rules id r x own found at_key =
    some_inj (sym found ∙ ap (λ n. find rule_key n rules) (sym same_id) ∙ at_key)
  where
    same_id : rule_key x ≡ id
    same_id = ground arith

Change-IsConsistent :
    (w w' : World) → Change false w w' → IsConsistent w.tables → IsConsistent w'.tables
unfolding new_card
Change-IsConsistent w w' nothing k = k
Change-IsConsistent w w' (card_added content_type q id h new) k = record {
  keys = k.keys;
  owners =
      All-imp (IsOwned w.tables.delivery_cards)
        (IsOwned (w.tables.delivery_cards ++ new_card content_type q id ∷ []))
        w.tables.delivery_rules
        (IsOwned-append w.tables.delivery_cards (new_card content_type q id)) k.owners;
}
Change-IsConsistent w w' (card_set content_type q id h may) k = absurd (ground arith)
Change-IsConsistent w w' (card_deleted id) k = record {
  keys = IsKeyed-delete_by rule_key (λ r. r.card_id) id w.tables.delivery_rules k.keys;
  owners =
      All-delete (λ r. r.card_id) (IsOwned w.tables.delivery_cards)
        (IsOwned (delete card_key id w.tables.delivery_cards)) id w.tables.delivery_rules
        (IsOwned-delete w.tables.delivery_cards id) k.owners;
}
Change-IsConsistent w w' (rule_added q id card found own new) k = record {
  keys = IsKeyed-append rule_key w.tables.delivery_rules (new_rule q id) new k.keys;
  owners =
      All-snoc (IsOwned w.tables.delivery_cards) w.tables.delivery_rules (new_rule q id) k.owners
        (ap (λ c. owned c q.account_id) found ∙ own);
}
Change-IsConsistent w w' (rule_set q id r found free) k = record {
  keys = IsKeyed-update rule_key id (assigned q) w.tables.delivery_rules (λ x. refl) k.keys;
  owners =
      All-update rule_key
        (λ x.
          (find rule_key (rule_key x) w.tables.delivery_rules ≡ some x)
          × IsOwned w.tables.delivery_cards x)
        (IsOwned w.tables.delivery_cards) id (assigned q) w.tables.delivery_rules
        (λ x own h.
          assigned-IsOwned w.tables q x
            (subst (λ y. refuse_card q.card_id y.account_id w.tables ≡ none)
              (same_row w.tables.delivery_rules id r x own found h.0) free)
            h.1)
        (λ x _ h. h.1)
        (All-both (λ x. find rule_key (rule_key x) w.tables.delivery_rules ≡ some x)
          (IsOwned w.tables.delivery_cards) w.tables.delivery_rules k.keys k.owners);
}
Change-IsConsistent w w' (rule_deleted id) k = record {
  keys = IsKeyed-delete rule_key id w.tables.delivery_rules k.keys;
  owners =
      All-delete rule_key (IsOwned w.tables.delivery_cards) (IsOwned w.tables.delivery_cards) id
        w.tables.delivery_rules (λ r _ h. h) k.owners;
}

-- Over any requests but the changes of cards, the ids of rules stay distinct, and every rule has a card
-- of its own account, if it was so before.
pub handle_all-IsConsistent :
    (loads : String → Option Json) (qs : List Request) (w : World)
    → All (λ q. sets_card q ≡ false) qs
    → IsConsistent w.tables
    → IsConsistent (handle_all loads qs w).tables
unfolding handle_all
handle_all-IsConsistent loads [] w others h = h
handle_all-IsConsistent loads (q ∷ qs) w others h =
    handle_all-IsConsistent loads qs (handle loads q w) others.1 (
      Change-IsConsistent w (handle loads q w)
        (subst (λ b. Change b w (handle loads q w)) others.0 (handle-Change loads q w)) h)
