-- ===== src/Services/Shipping/Best.antt =====
-- The row that is taken is the first in the order among those that the conditions select.
use xianyu_manager.Runtime.Dedupe.Bounds.{later}
use xianyu_manager.Services.ReplyPolicy.Candidates.{first}
use xianyu_manager.Services.Shipping.{
  Database, DeliveryCard, DeliveryRule, action_of, comes_before, earlier, first_row, is_selected,
  join, join_cards, ltb_ℤ, resolve_delivery_rule,
}
use xianyu_manager.Prelude.{
  ◌&&◌, All, All-append, Bool, Bool-cases, In, In-append, List, String, [], ap, arith, false, here,
  if◌then◌else◌, inl, inr, ltb, negsuc, none, not, pos, refl, some, there, true, ◌||◌, ℕ, ℤ, ◌∷◌,
  ◌≡◌, ◌⊎◌, All-imp,
}

not_before_trans :
    (a b c : DeliveryRule)
    → comes_before a b ≡ false
    → comes_before b c ≡ false
    → comes_before a c ≡ false
unfolding comes_before
not_before_trans a b c h k = by_values a.priority b.priority c.priority a.id b.id c.id h k
  where
    by_values :
        (p q r : ℤ) (i j k : ℕ)
        → (ltb_ℤ q p || (not (ltb_ℤ p q) && ltb i j)) ≡ false
        → (ltb_ℤ r q || (not (ltb_ℤ q r) && ltb j k)) ≡ false
        → (ltb_ℤ r p || (not (ltb_ℤ p r) && ltb i k)) ≡ false
    by_values (pos p) (pos q) (pos r) i j k g h = ground arith
    by_values (pos p) (pos q) (negsuc r) i j k g h = ground arith
    by_values (pos p) (negsuc q) (pos r) i j k g h = ground arith
    by_values (pos p) (negsuc q) (negsuc r) i j k g h = ground arith
    by_values (negsuc p) (pos q) (pos r) i j k g h = ground arith
    by_values (negsuc p) (pos q) (negsuc r) i j k g h = ground arith
    by_values (negsuc p) (negsuc q) (pos r) i j k g h = ground arith
    by_values (negsuc p) (negsuc q) (negsuc r) i j k g h = ground arith

not_before_self : (a : DeliveryRule) → comes_before a a ≡ false
unfolding comes_before
not_before_self a = by_values a.priority a.id
  where
    by_values : (p : ℤ) (i : ℕ) → (ltb_ℤ p p || (not (ltb_ℤ p p) && ltb i i)) ≡ false
    by_values (pos p) i = ground arith
    by_values (negsuc p) i = ground arith

before-asym : (a b : DeliveryRule) → comes_before a b ≡ true → comes_before b a ≡ false
unfolding comes_before
before-asym a b h = by_values a.priority b.priority a.id b.id h
  where
    by_values :
        (p q : ℤ) (i j : ℕ)
        → (ltb_ℤ q p || (not (ltb_ℤ p q) && ltb i j)) ≡ true
        → (ltb_ℤ p q || (not (ltb_ℤ q p) && ltb j i)) ≡ false
    by_values (pos p) (pos q) i j g = ground arith
    by_values (pos p) (negsuc q) i j g = ground arith
    by_values (negsuc p) (pos q) i j g = ground arith
    by_values (negsuc p) (negsuc q) i j g = ground arith

abbrev Row : Type 0
Row = DeliveryRule × DeliveryCard

-- No row of the list comes before this one.
abbrev IsFirst : Row → List Row → Type 0
IsFirst p ps = All (λ q. comes_before q.0 p.0 ≡ false) ps

IsFirst-weaken :
    (p q : Row) (ps : List Row) → IsFirst p ps → comes_before p.0 q.0 ≡ false → IsFirst q ps
IsFirst-weaken p q [] h k = tt
IsFirst-weaken p q (x ∷ ps) h k = (not_before_trans x.0 p.0 q.0 h.0 k, IsFirst-weaken p q ps h.1 k)

first_row-cases :
    (ps : List Row)
    → ((ps ≡ []) × (first_row ps ≡ none))
      ⊎ ((p : Row) × (first_row ps ≡ some p) × In p ps × IsFirst p ps)
unfolding first_row earlier
first_row-cases [] = inl (refl, refl)
first_row-cases (p ∷ ps) = elim (first_row-cases ps) [
  | inl (e, f) ↦ inr (p, rw f refl, here refl, (not_before_self p.0, rw e tt))
  | inr (q, f, i, h) ↦ elim (Bool-cases (comes_before q.0 p.0)) [
    | inl b ↦ inr (q, rw (f, b) refl, there i, (before-asym q.0 p.0 b, h))
    | inr b ↦ inr (p, rw (f, b) refl, here refl, (not_before_self p.0, IsFirst-weaken q p ps h b))
  ]
]

and_true : (b : Bool) → (b && true) ≡ false → b ≡ false
and_true b h = ground arith

module _ (item_id account_id : String) where
  abbrev sel : DeliveryRule → DeliveryCard → Bool
  sel r c = is_selected item_id account_id r c

  abbrev IsJoined : Row → List DeliveryRule → List DeliveryCard → Type 0
  IsJoined p rs cs = In p.0 rs × In p.1 cs × (sel p.0 p.1 ≡ true)

  In-join_cards :
      (p : Row) (r : DeliveryRule) (cs : List DeliveryCard)
      → In p (join_cards item_id account_id r cs)
      → (p.0 ≡ r) × In p.1 cs × (sel p.0 p.1 ≡ true)
  unfolding join_cards
  In-join_cards p r [] h = elim h [ ]
  In-join_cards p r (c ∷ cs) h = by_choice (sel r c) refl (In-join_cards p r cs) h
    where
      by_choice :
          (b : Bool)
          → sel r c ≡ b
          → (In p (join_cards item_id account_id r cs)
              → (p.0 ≡ r) × In p.1 cs × (sel p.0 p.1 ≡ true))
          → In p (
              if b
              then (r, c) ∷ join_cards item_id account_id r cs
              else join_cards item_id account_id r cs)
          → (p.0 ≡ r) × In p.1 (c ∷ cs) × (sel p.0 p.1 ≡ true)
      by_choice false e later h = let (a, i, s) = later h in (a, there i, s)
      by_choice true e later (here q) = (ap (λ x. x.0) q, here (ap (λ x. x.1) q), rw q e)
      by_choice true e later (there h) = let (a, i, s) = later h in (a, there i, s)

  In-join :
      (p : Row) (rs : List DeliveryRule) (cs : List DeliveryCard)
      → In p (join item_id account_id rs cs)
      → IsJoined p rs cs
  unfolding join
  In-join p [] cs h = elim h [ ]
  In-join p (r ∷ rs) cs h =
      elim (In-append p (join_cards item_id account_id r cs) (join item_id account_id rs cs) h) [
        | inl a ↦ let (e, i, s) = In-join_cards p r cs a in (here e, i, s)
        | inr b ↦ let (e, i, s) = In-join p rs cs b in (there e, i, s)
      ]

  All-join_cards :
      (b : Row → Bool) (r : DeliveryRule) (cs : List DeliveryCard)
      → All (λ q. b q ≡ false) (join_cards item_id account_id r cs)
      → All (λ c. (sel r c && b (r, c)) ≡ false) cs
  unfolding join_cards
  All-join_cards b r [] h = tt
  All-join_cards b r (c ∷ cs) h = by_choice (sel r c) refl (All-join_cards b r cs) h
    where
      by_choice :
          (s : Bool)
          → sel r c ≡ s
          → (All (λ q. b q ≡ false) (join_cards item_id account_id r cs)
              → All (λ c. (sel r c && b (r, c)) ≡ false) cs)
          → All
              (λ q. b q ≡ false)
              (if s
                then (r, c) ∷ join_cards item_id account_id r cs
                else join_cards item_id account_id r cs)
          → All (λ c. (sel r c && b (r, c)) ≡ false) (c ∷ cs)
      by_choice false e later h = (rw e refl, later h)
      by_choice true e later h = (rw e h.0, later h.1)

  All-join :
      (b : Row → Bool) (rs : List DeliveryRule) (cs : List DeliveryCard)
      → All (λ q. b q ≡ false) (join item_id account_id rs cs)
      → All (λ r. All (λ c. (sel r c && b (r, c)) ≡ false) cs) rs
  unfolding join
  All-join b [] cs h = tt
  All-join b (r ∷ rs) cs h =
      let (first, rest) =
        All-append (λ q. b q ≡ false) (join_cards item_id account_id r cs)
          (join item_id account_id rs cs) h in
      (All-join_cards b r cs first, All-join b rs cs rest)

  -- No rule and card that the conditions select.
  abbrev pub HasNone : Database → Type 0
  HasNone db =
      All (λ r. All (λ c. is_selected item_id account_id r c ≡ false) db.delivery_cards)
        db.delivery_rules

  -- A rule and a card that the conditions select, with no other such rule before it.
  abbrev pub IsBest : Row → Database → Type 0
  IsBest p db =
      In p.0 db.delivery_rules
      × In p.1 db.delivery_cards
      × (is_selected item_id account_id p.0 p.1 ≡ true)
      × All
          (λ r.
            All (λ c. (is_selected item_id account_id r c && comes_before r p.0) ≡ false)
              db.delivery_cards)
          db.delivery_rules

  -- The first selected row in the order of the query, or none where the conditions select none.
  pub resolve_delivery_rule-cases :
      (db : Database)
      → ((resolve_delivery_rule item_id account_id db ≡ none) × HasNone db)
        ⊎ ((p : Row) × (resolve_delivery_rule item_id account_id db ≡ some (action_of p))
            × IsBest p db)
  unfolding resolve_delivery_rule
  resolve_delivery_rule-cases db =
      elim (first_row-cases (join item_id account_id db.delivery_rules db.delivery_cards)) [
        | inl (e, f) ↦ inl (
          rw (resolve_delivery_rule, f) refl,
          All-imp
              (λ r.
                All (λ c. (is_selected item_id account_id r c && true) ≡ false) db.delivery_cards)
              (λ r. All (λ c. is_selected item_id account_id r c ≡ false) db.delivery_cards)
              db.delivery_rules
              (λ r.
                All-imp (λ c. (is_selected item_id account_id r c && true) ≡ false)
                  (λ c. is_selected item_id account_id r c ≡ false) db.delivery_cards
                  (λ c. and_true (is_selected item_id account_id r c)))
              (All-join (λ _. true) db.delivery_rules db.delivery_cards (rw e tt)),
        )
        | inr (p, f, i, h) ↦
            let (a, b, s) = In-join p db.delivery_rules db.delivery_cards i in
            inr (
              p,
              rw (resolve_delivery_rule, f) refl,
              (a, b, s, All-join (λ q. comes_before q.0 p.0) db.delivery_rules db.delivery_cards h),
            )
      ]
