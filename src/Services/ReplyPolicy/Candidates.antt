-- ===== src/Services/ReplyPolicy/Candidates.antt =====
-- The reply as the first of all that could be given.
-- The elements that a function keeps, and the first element.
use xianyu_manager.Services.ReplyPolicy.{
  Keyword, Reply, ReplyResult, Tables, default_reply, first_match, item_reply, matches, or_else,
  resolve, select_enabled, select_item,
}
use xianyu_manager.Prelude.{
  ◌&&◌, ◌++◌, ◌==◌, Bool, List, Option, String, [], arith, if◌then◌else◌, none, refl, some, ◌∷◌,
  ◌≡◌,
}

abbrev pub keep {ℓ κ} : {A : Type ℓ} {B : Type κ} → (A → Option B) → List A → List B
keep f [] = []
keep f (x ∷ xs) = let rest = keep f xs in elim (f x) [ some y ↦ y ∷ rest | none ↦ rest ]

abbrev pub first {ℓ} : {A : Type ℓ} → List A → Option A
first [] = none
first (x ∷ xs) = some x

first-append : (xs ys : List ReplyResult) → first (xs ++ ys) ≡ or_else (first xs) (first ys)
first-append [] ys = refl
first-append (x ∷ xs) ys = refl

-- What a row offers to a message about an item.
abbrev pub offer : String → Bool → String → String → Option ReplyResult
offer source applies pattern_text content =
    if applies
    then some (record { reply_text = content; source = source; matched_pattern = pattern_text })
    else none

module _ (lower_case : String → String) (re_search : String → String → Option Bool)
    (item_id : String) (message : String) where
  abbrev offer_item : Reply → Option ReplyResult
  offer_item row = offer "item_reply" (row.item_id == item_id && row.enabled) "" row.content

  abbrev offer_default : Reply → Option ReplyResult
  offer_default row = offer "default" row.enabled "" row.content

  abbrev fits : Keyword → Bool
  fits row = row.enabled && matches lower_case re_search message row.pattern_text row.is_regex

  abbrev offer_item_keyword : Keyword → Option ReplyResult
  offer_item_keyword row =
      offer "item_keyword" (row.item_id == item_id && fits row) row.pattern_text row.reply_content

  abbrev offer_keyword : Keyword → Option ReplyResult
  offer_keyword row = offer "keyword" (fits row) row.pattern_text row.reply_content

  -- Every reply that some enabled row offers, in the order of the frozen priority.
  abbrev pub candidates : Tables → List ReplyResult
  candidates t =
      keep offer_item t.item_replies
      ++ (keep offer_item_keyword t.item_keywords
          ++ (keep offer_keyword t.keywords ++ keep offer_default t.default_replies))

  item_reply-first : (rows : List Reply) → item_reply item_id rows ≡ first (keep offer_item rows)
  unfolding item_reply
  item_reply-first [] = refl
  item_reply-first (row ∷ rows) = ground (arith, item_reply-first rows)

  default_reply-first : (rows : List Reply) → default_reply rows ≡ first (keep offer_default rows)
  unfolding default_reply
  default_reply-first [] = refl
  default_reply-first (row ∷ rows) = ground (arith, default_reply-first rows)

  item_keyword_first :
      (rows : List Keyword)
      → first_match lower_case re_search "item_keyword" message (select_item item_id rows)
        ≡ first (keep offer_item_keyword rows)
  unfolding first_match select_item
  item_keyword_first [] = refl
  item_keyword_first (row ∷ rows) = ground (arith, item_keyword_first rows)

  keyword_first :
      (rows : List Keyword)
      → first_match lower_case re_search "keyword" message (select_enabled rows)
        ≡ first (keep offer_keyword rows)
  unfolding first_match select_enabled
  keyword_first [] = refl
  keyword_first (row ∷ rows) = ground (arith, keyword_first rows)

  -- The service replies with the first reply that any enabled row offers: the replies for the item,
  -- then the item's keywords that match, then the general keywords that match, then the default
  -- replies, each in the order of its table; and with nothing exactly if no row offers one.
  pub resolve-first_candidate :
      (t : Tables) → resolve lower_case re_search t item_id message ≡ first (candidates t)
  unfolding resolve
  resolve-first_candidate t =
      rw
        (
          first-append (keep offer_item t.item_replies) (
              keep offer_item_keyword t.item_keywords
              ++ (keep offer_keyword t.keywords ++ keep offer_default t.default_replies)),
          first-append (keep offer_item_keyword t.item_keywords)
              (keep offer_keyword t.keywords ++ keep offer_default t.default_replies),
          first-append (keep offer_keyword t.keywords) (keep offer_default t.default_replies),
          item_reply-first t.item_replies,
          item_keyword_first t.item_keywords,
          keyword_first t.keywords,
          default_reply-first t.default_replies,
        )
        refl
