-- ===== src/Api/Shipping/Deliveries.antt =====
-- app/api/routers/shipping.py with app/services/shipping.py: the deliveries that the requests lead to.
use xianyu_manager.Runtime.MessagePipeline.Values.{Json}
use xianyu_manager.Api.Shipping.Integrity.{IsIntact, handle_all-IsIntact}
use xianyu_manager.Dict.{mem, Dict}
use xianyu_manager.Api.{Answer, answered, Failure}
use xianyu_manager.Api.Table.{find, next_id}
use xianyu_manager.Api.Table.Laws.{find-In, some_inj}
use xianyu_manager.Api.Shipping.{
  DeliveryRuleCreateRequest, World, card_key, fetch_card_row, rule_key,
  require_matching_card_account, require_matching_item_account, allowed_card_content_types,
}
use xianyu_manager.Api.Shipping.Requests.{
  create_delivery_rule, insert_rule, new_rule, returned, card_not_found, unless, require,
}
use xianyu_manager.Api.Shipping.Changes.{with_rules, matching_account, IsKnown, Request, handle_all}
use xianyu_manager.Services.Shipping.Best.{resolve_delivery_rule-cases}
use xianyu_manager.Services.Shipping.{
  Database, DeliveryAction, DeliveryCard, DeliveryRule, action_of, is_selected,
  resolve_delivery_rule, mode_of, unknown,
}
use xianyu_manager.Prelude.{
  Bool, Option, String, [], false, none, some, true, ℕ, ◌++◌, ◌==◌, ◌==ℕ◌, ◌∷◌, ◌≡◌, refl, eq_refl,
  arith, All, All-In, In-snoc, here, there, eq_iff, subst, sym, inl, inr, ◌∙◌, In, List,
  if◌then◌else◌, ◌≢◌,
}

-- A rule was created: its card is there and of its account, and the rule is the last one.
abbrev IsCreated : DeliveryRuleCreateRequest → World → World → Type 0
IsCreated q w w' =
    (card : DeliveryCard) × (find card_key q.card_id w.tables.delivery_cards ≡ some card)
    × ((card.account_id == q.account_id) ≡ true)
    × (w'
        ≡ with_rules
            (w.tables.delivery_rules ++ new_rule q (next_id rule_key w.tables.delivery_rules) ∷ [])
            w)

returned-answered :
    {A : Type 0} (missing : Failure) (o : Option A) (w w' : World) (row : A)
    → (returned missing o w w').0 ≡ answered row
    → (returned missing o w w').1 ≡ w'
returned-answered missing none w w' row h = absurd (ground arith)
returned-answered missing (some x) w w' row h = refl

-- An answer comes after every check.
unless-answered :
    {A : Type 0} (o : Option Failure) (w : World) (x : Answer A × World) (row : A)
    → (unless o w x).0 ≡ answered row
    → (o ≡ none) × (x.0 ≡ answered row) × ((unless o w x).1 ≡ x.1)
unless-answered (some e) w x row h = absurd (ground arith)
unless-answered none w x row h = (refl, h, refl)

require-answered :
    {R A : Type 0} (o : Option R) (missing : Failure) (w : World) (f : R → Answer A × World)
    (row : A)
    → (require o missing w f).0 ≡ answered row
    → (r : R) × (o ≡ some r) × ((f r).0 ≡ answered row) × ((require o missing w f).1 ≡ (f r).1)
require-answered none missing w f row h = absurd (ground arith)
require-answered (some r) missing w f row h = (r, refl, h, refl)

create_delivery_rule-IsCreated :
    (q : DeliveryRuleCreateRequest) (w : World) (row : DeliveryRule)
    → (create_delivery_rule q w).0 ≡ answered row
    → IsCreated q w (create_delivery_rule q w).1
unfolding create_delivery_rule insert_rule fetch_card_row
create_delivery_rule-IsCreated q w row h =
    let item_check = require_matching_item_account q.item_id q.account_id w.items in
    let (card, found, g, e) =
      require-answered (find card_key q.card_id w.tables.delivery_cards) card_not_found w
        (λ card.
          unless (require_matching_card_account card q.account_id) w
            (unless item_check w (insert_rule q w)))
        row h in
    let (own, g', e') =
      unless-answered (require_matching_card_account card q.account_id) w
        (unless item_check w (insert_rule q w)) row g in
    let (_, g'', e'') = unless-answered item_check w (insert_rule q w) row g' in
    (
      card,
      found,
      matching_account card q.account_id own,
      e ∙ e' ∙ e'' ∙ returned-answered _ _ w _ row g'',
    )

abbrev created_tables : DeliveryRuleCreateRequest → World → Database
created_tables q w =
    (with_rules
      (w.tables.delivery_rules ++ new_rule q (next_id rule_key w.tables.delivery_rules) ∷ [])
      w).tables

contradiction : {b : Bool} → b ≡ false → b ≡ true → ⊥
contradiction f t = ground arith

selected :
    (q : DeliveryRuleCreateRequest) (id : ℕ) (card : DeliveryCard)
    → (card_key card ==ℕ q.card_id) ≡ true
    → (card.account_id == q.account_id) ≡ true
    → q.enabled ≡ true
    → is_selected q.item_id q.account_id (new_rule q id) card ≡ true
unfolding is_selected
selected q id card e own enabled = ground (arith, eq_refl q.item_id, eq_refl q.account_id)

abbrev pub IsDelivered : String → String → Database → Type 0
IsDelivered item_id account_id db =
    (action : DeliveryAction) × (resolve_delivery_rule item_id account_id db ≡ some action)

-- If a request to create a rule is answered and the rule is enabled, its item and account have a delivery
-- in the tables that the request leaves: its checks let nothing through that the delivery would not select.
pub create_delivery_rule-resolves :
    (q : DeliveryRuleCreateRequest) (w : World) (row : DeliveryRule)
    → (create_delivery_rule q w).0 ≡ answered row
    → q.enabled ≡ true
    → IsDelivered q.item_id q.account_id (create_delivery_rule q w).1.tables
create_delivery_rule-resolves q w row h enabled =
    let (card, found, own, e) = create_delivery_rule-IsCreated q w row h in
    subst (λ w'. IsDelivered q.item_id q.account_id w'.tables) (sym e)
      (elim (resolve_delivery_rule-cases q.item_id q.account_id (created_tables q w)) [
        | inr (p, f, _) ↦ (action_of p, f)
        | inl (f, h) ↦
            let (member, at_key) = find-In card_key q.card_id card w.tables.delivery_cards found in
            let rule = new_rule q (next_id rule_key w.tables.delivery_rules) in
            absurd (
              contradiction
                (All-In (λ c. is_selected q.item_id q.account_id rule c ≡ false) card
                  w.tables.delivery_cards
                  (All-In
                    (λ r.
                      All (λ c. is_selected q.item_id q.account_id r c ≡ false)
                        w.tables.delivery_cards)
                    rule (w.tables.delivery_rules ++ rule ∷ []) h
                    (In-snoc rule w.tables.delivery_rules))
                  member)
                (selected q (next_id rule_key w.tables.delivery_rules) card at_key own enabled))
      ])

mem-In : (k : String) (ks : List String) → mem k ks ≡ true → In k ks
unfolding mem
mem-In k [] h = absurd (ground arith)
mem-In k (j ∷ ks) h = by_choice (j == k) refl h (mem-In k ks)
  where
    by_choice :
        (b : Bool)
        → (j == k) ≡ b
        → (if b then true else mem k ks) ≡ true
        → (mem k ks ≡ true → In k ks)
        → In k (j ∷ ks)
    by_choice true e g rest = here (sym ((eq_iff j k).0 e))
    by_choice false e g rest = there (rest g)

allowed_modes : All (λ t. mode_of t ≢ unknown) allowed_card_content_types
unfolding mode_of xianyu_manager.Text.lower xianyu_manager.Text.strip xianyu_manager.Dict.lookup
allowed_modes = (
  λ h. absurd (ground arith),
  (
    λ h. absurd (ground arith),
    (λ h. absurd (ground arith), (λ h. absurd (ground arith), (λ h. absurd (ground arith), tt))),
  ),
)

action_mode :
    (p : DeliveryRule × DeliveryCard) (db : Database)
    → IsIntact db
    → In p.1 db.delivery_cards
    → (action_of p).mode ≢ unknown
unfolding action_of
action_mode p db k member =
    All-In (λ t. mode_of t ≢ unknown) p.1.content_type allowed_card_content_types allowed_modes
      (mem-In p.1.content_type allowed_card_content_types
        (All-In (λ c. IsKnown c.content_type) p.1 db.delivery_cards k.cards member))

-- Whatever the requests were, a delivery that is resolved afterwards has a known mode, if every card had
-- a type that the delivery knows before them, and every rule its card.
pub handle_all-known_mode :
    (loads : String → Option Json) (qs : List Request) (w : World) (item_id account_id : String)
    (action : DeliveryAction)
    → IsIntact w.tables
    → resolve_delivery_rule item_id account_id (handle_all loads qs w).tables ≡ some action
    → action.mode ≢ unknown
handle_all-known_mode loads qs w item_id account_id action k h =
    let db = (handle_all loads qs w).tables in
    elim (resolve_delivery_rule-cases item_id account_id db) [
      | inl (f, _) ↦ absurd (none-ne-some (sym f ∙ h))
      | inr (p, f, (_, member, _, _)) ↦
          subst (λ a. a.mode ≢ unknown) (some_inj (sym f ∙ h))
            (action_mode p db (handle_all-IsIntact loads qs w k) member)
    ]
  where
    none-ne-some : {a : DeliveryAction} → none ≡ some a → ⊥
    none-ne-some e = ground arith
