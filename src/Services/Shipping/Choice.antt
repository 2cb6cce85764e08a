-- ===== src/Services/Shipping/Choice.antt =====
-- The delivery that a rule gives, in terms of the columns of the tables.
use xianyu_manager.Services.Shipping.Best.{HasNone, resolve_delivery_rule-cases}
use xianyu_manager.Services.Shipping.{
  Database, DeliveryAction, DeliveryCard, DeliveryMode, DeliveryRule, action_of, api_card,
  batch_data, comes_before, image, is_selected, ltb_ℤ, mode_of, resolve_delivery_rule, text,
  unknown, yifan,
}
use xianyu_manager.Dict.{lookup}
use xianyu_manager.Text.{lower, strip}
use xianyu_manager.Prelude.{
  All, All-In, Bool, In, String, arith, eq_iff, false, inl, inr, negsuc, none, not, pos, refl, ap,
  sym, Bool-cases, if◌then◌else◌, some, true, ℕ, ℤ, ◌&&◌, ◌<◌, ◌==◌, ◌||◌, ◌≡◌, ◌≢◌, ◌≤◌, ◌⊎◌, ltb,
}

-- The order of the integers.
abbrev pub IsBelow : ℤ → ℤ → Type 0
IsBelow (pos a) (pos b) = a < b
IsBelow (pos a) (negsuc b) = ⊥
IsBelow (negsuc a) (pos b) = Unit
IsBelow (negsuc a) (negsuc b) = b < a

-- An enabled rule of the account for the item, with its card, which is of the account too.
abbrev pub IsOffered : String → String → DeliveryRule → DeliveryCard → Type 0
IsOffered item_id account_id r c =
    (r.card_id ≡ c.id)
    × (r.item_id ≡ item_id)
    × (r.enabled ≡ true)
    × (r.account_id ≡ account_id)
    × (c.account_id ≡ account_id)

-- The first rule goes at least as early: a higher priority, or the same and an id that is not larger.
abbrev pub GoesFirst : DeliveryRule → DeliveryRule → Type 0
GoesFirst r s = IsBelow s.priority r.priority ⊎ ((r.priority ≡ s.priority) × (r.id ≤ s.id))

-- The mode that the type of a card names, in lower case and without the space around it.
abbrev pub IsNamed : DeliveryMode → String → Type 0
IsNamed text t = t ≡ "text"
IsNamed batch_data t = (t ≡ "data") ⊎ (t ≡ "batch_data")
IsNamed api_card t = (t ≡ "api") ⊎ (t ≡ "api_card")
IsNamed image t = t ≡ "image"
IsNamed yifan t = t ≡ "yifan"
IsNamed unknown t =
    (t ≢ "text")
    × (t ≢ "data")
    × (t ≢ "batch_data")
    × (t ≢ "api")
    × (t ≢ "api_card")
    × (t ≢ "image")
    × (t ≢ "yifan")

module _ (item_id account_id : String) where
  -- The action has a rule and a card of the tables that are offered, and no rule that is offered with a
  -- card goes before it.
  abbrev pub IsChoice : DeliveryAction → Database → Type 0
  IsChoice a db =
      (r : DeliveryRule) × (c : DeliveryCard) × In r db.delivery_rules
      × In c db.delivery_cards
      × IsOffered item_id account_id r c
      × (a.rule_id ≡ r.id)
      × (a.card_id ≡ c.id)
      × (a.content ≡ c.content)
      × IsNamed a.mode (lower (strip c.content_type))
      × ((s : DeliveryRule) (d : DeliveryCard)
          → In s db.delivery_rules
          → In d db.delivery_cards
          → IsOffered item_id account_id s d
          → GoesFirst r s)

  abbrev pub IsUnserved : Database → Type 0
  IsUnserved db =
      (s : DeliveryRule) (d : DeliveryCard)
      → In s db.delivery_rules
      → In d db.delivery_cards
      → IsOffered item_id account_id s d
      → ⊥

  is_selected-IsOffered :
      (r : DeliveryRule) (c : DeliveryCard)
      → is_selected item_id account_id r c ≡ true
      → IsOffered item_id account_id r c
  unfolding is_selected
  is_selected-IsOffered r c h = (
    ground (arith, h),
    ground (arith, h, eq_iff r.item_id item_id),
    ground (arith, h),
    ground (arith, h, eq_iff r.account_id account_id),
    ground (arith, h, eq_iff c.account_id account_id),
  )

  IsOffered-is_selected :
      (r : DeliveryRule) (c : DeliveryCard)
      → IsOffered item_id account_id r c
      → is_selected item_id account_id r c ≡ true
  unfolding is_selected
  IsOffered-is_selected r c (a, b, e, f, g) = ground (
    arith,
    eq_iff r.item_id item_id,
    eq_iff r.account_id account_id,
    eq_iff c.account_id account_id,
  )

not_before-GoesFirst : (r s : DeliveryRule) → comes_before s r ≡ false → GoesFirst r s
unfolding comes_before
not_before-GoesFirst r s h = by_values r.priority s.priority r.id s.id h
  where
    by_values :
        (p q : ℤ) (i j : ℕ)
        → (ltb_ℤ p q || (not (ltb_ℤ q p) && ltb j i)) ≡ false
        → IsBelow q p ⊎ ((p ≡ q) × (i ≤ j))
    by_values (pos p) (pos q) i j g = elim (Bool-cases (ltb q p)) [
      | inl b ↦ inl (ground (arith, b))
      | inr b ↦ inr (ap pos (ground (arith, g, b)), ground (arith, g, b))
    ]
    by_values (pos p) (negsuc q) i j g = inl tt
    by_values (negsuc p) (pos q) i j g = absurd (ground (arith, g))
    by_values (negsuc p) (negsuc q) i j g = elim (Bool-cases (ltb p q)) [
      | inl b ↦ inl (ground (arith, b))
      | inr b ↦ inr (ap negsuc (ground (arith, g, b)), ground (arith, g, b))
    ]

not_equal : (x u : String) → (x == u) ≡ false → u ≢ x
not_equal x u h e = ground (arith, eq_iff x u)

equal : (x u : String) → (x == u) ≡ true → u ≡ x
equal x u h = sym ((eq_iff x u).0 h)

mode_of-IsNamed : (t : String) → IsNamed (mode_of t) (lower (strip t))
unfolding mode_of lookup
mode_of-IsNamed t = by_tests (lower (strip t)) _ _ _ _ _ _ _ refl refl refl refl refl refl refl
  where
    by_tests :
        (u : String) (b c d e f g h : Bool)
        → ("text" == u) ≡ b
        → ("data" == u) ≡ c
        → ("batch_data" == u) ≡ d
        → ("api" == u) ≡ e
        → ("api_card" == u) ≡ f
        → ("image" == u) ≡ g
        → ("yifan" == u) ≡ h
        → IsNamed
            (elim (if b
                then some text
                else if c
                then some batch_data
                else if d
                then some batch_data
                else if e
                then some api_card
                else if f
                then some api_card
                else if g
                then some image
                else if h
                then some yifan
                else none)
              as (λ _. DeliveryMode) [ none ↦ unknown | some mode ↦ mode ])
            u
    by_tests u true _ _ _ _ _ _ i _ _ _ _ _ _ = equal "text" u i
    by_tests u false true _ _ _ _ _ _ j _ _ _ _ _ = inl (equal "data" u j)
    by_tests u false false true _ _ _ _ _ _ k _ _ _ _ = inr (equal "batch_data" u k)
    by_tests u false false false true _ _ _ _ _ _ l _ _ _ = inl (equal "api" u l)
    by_tests u false false false false true _ _ _ _ _ _ m _ _ = inr (equal "api_card" u m)
    by_tests u false false false false false true _ _ _ _ _ _ n _ = equal "image" u n
    by_tests u false false false false false false true _ _ _ _ _ _ o = equal "yifan" u o
    by_tests u false false false false false false false i j k l m n o = (
      not_equal "text" u i,
      not_equal "data" u j,
      not_equal "batch_data" u k,
      not_equal "api" u l,
      not_equal "api_card" u m,
      not_equal "image" u n,
      not_equal "yifan" u o,
    )

module _ (item_id account_id : String) where
  offered-false :
      (b : DeliveryRule → Bool) (s : DeliveryRule) (d : DeliveryCard) (db : Database)
      → All
          (λ r. All (λ c. (is_selected item_id account_id r c && b r) ≡ false) db.delivery_cards)
          db.delivery_rules
      → In s db.delivery_rules
      → In d db.delivery_cards
      → IsOffered item_id account_id s d
      → b s ≡ false
  offered-false b s d db k i j o =
      let refused =
        All-In (λ c. (is_selected item_id account_id s c && b s) ≡ false) d db.delivery_cards
          (All-In
            (λ r. All (λ c. (is_selected item_id account_id r c && b r) ≡ false) db.delivery_cards)
            s db.delivery_rules k i)
          j in
      ground (arith, refused, IsOffered-is_selected item_id account_id s d o)

  -- The action that is resolved has an enabled rule of the account for the item, with its card of this
  -- account, such that no other such rule has a higher priority, or the same priority and a smaller id;
  -- it has the card's content, and the mode that the card's type names, in lower case and without the
  -- space around it. There is no action exactly if there is no such rule with its card.
  pub resolve_delivery_rule-IsChoice :
      (db : Database)
      → ((resolve_delivery_rule item_id account_id db ≡ none) × IsUnserved item_id account_id db)
        ⊎ ((a : DeliveryAction) × (resolve_delivery_rule item_id account_id db ≡ some a)
            × IsChoice item_id account_id a db)
  unfolding action_of
  resolve_delivery_rule-IsChoice db = elim (resolve_delivery_rule-cases item_id account_id db) [
    | inl (f, k) ↦ inl (f, λ s d i j o. unserved s d k i j o)
    | inr ((r, c), f, (i, j, s, k)) ↦ inr (
      action_of (r, c),
      f,
      (
        r,
        c,
        i,
        j,
        is_selected-IsOffered item_id account_id r c s,
        refl,
        refl,
        refl,
        mode_of-IsNamed c.content_type,
        λ t d m n o.
            not_before-GoesFirst r t (offered-false (λ q. comes_before q r) t d db k m n o),
      ),
    )
  ]
    where
      unserved :
          (s : DeliveryRule) (d : DeliveryCard)
          → HasNone item_id account_id db
          → In s db.delivery_rules
          → In d db.delivery_cards
          → IsOffered item_id account_id s d
          → ⊥
      unserved s d k i j o =
          let refused =
            All-In (λ c. is_selected item_id account_id s c ≡ false) d db.delivery_cards
              (All-In (λ r. All (λ c. is_selected item_id account_id r c ≡ false) db.delivery_cards)
                s db.delivery_rules k i)
              j in
          ground (arith, refused, IsOffered-is_selected item_id account_id s d o)
