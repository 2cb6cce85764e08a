-- ===== src/Runtime/MessagePipeline/Texts.antt =====
-- The texts that are collected from an event, with where they stand, and the order number in a text.
-- `json.loads` (`none` where it raises), `re.search` with its first group, `re.findall` with its first
-- result, `str.isdigit` of a character and Python's `str.lower` are parameters.
pub mod Sizes
pub mod Termination
mod Examples
use xianyu_manager.Runtime.AccountRegistry.{count}
use xianyu_manager.Text.{strip, is_in, split_on, strip_by}
use xianyu_manager.Runtime.MessagePipeline.Values.{
  Elements, Fields, Json, decimal, element, field, json_bool, json_dict, json_float, json_int,
  json_list, json_null, json_text, no_elements, no_fields, str_of,
}
use xianyu_manager.Prelude.{
  ◌&&◌, ◌+◌, ◌++◌, ◌==◌, Bool, List, Option, String, [], false, if◌then◌else◌, none, some, suc,
  true, zero, ◌||◌, ℕ, ◌∷◌, ◌==ℕ◌, leb,
}
use Prim.Native.String as Chars
use Prim.Native.Char.{code}
use Prim.Native.String.{◌++◌ as ◌⊕◌}
use text.Mathlib.Text.{starts_with}

abbrev pub Candidates : Type 0
Candidates = List (String × String)

-- `(source, text) in seen`; the pairs that were seen are the candidates.
unfoldable pub is_seen : String → String → Candidates → Bool
is_seen source text [] = false
is_seen source text ((s, t) ∷ cs) = (s == source && t == text) || is_seen source text cs

unfoldable pub starts_json : String → Bool
starts_json text = starts_with text "{" || starts_with text "["

unfoldable pub is_container : Json → Bool
is_container (json_list _) = true
is_container (json_dict _) = true
is_container _ = false

unfoldable pub is_null : Json → Bool
is_null json_null = true
is_null _ = false

-- The next step of a walk that has not run out of fuel.
abbrev pub and_then : Option Candidates → (Candidates → Option Candidates) → Option Candidates
and_then none k = none
and_then (some cs) k = k cs

-- `none` is the end of the fuel.
module _ (repr : Json → String) (loads : String → Option Json) where
  -- The candidates, by what a JSON text is walked with.
  module _ (walk_parsed : Json → String → Candidates → Option Candidates) where
    unfoldable pub walk_json : String → Option Json → Candidates → Option Candidates
    unfolding is_null
    walk_json source none cs = some cs
    walk_json source (some v) cs =
        if is_null v then some cs else walk_parsed v (source ⊕ ".json") cs

    unfoldable pub add_text : String → String → Candidates → Option Candidates
    unfolding is_seen starts_json walk_json
    add_text source text cs =
        let cs' = cs ++ (source, text) ∷ [] in
        if text == "" || is_seen source text cs
        then some cs
        else if starts_json text
        then walk_json source (loads text) cs'
        else some cs'

    unfoldable pub add_candidate : String → Json → Candidates → Option Candidates
    unfolding is_null add_text str_of
    add_candidate source v cs =
        if is_null v then some cs else add_text source (strip (str_of repr v)) cs

    unfoldable mutual
      unfolding add_candidate decimal

      pub walk_value : Json → String → Candidates → Option Candidates
      walk_value (json_dict fs) source cs = walk_fields fs source cs
      walk_value (json_list vs) source cs = walk_elements 20 0 vs source cs
      walk_value json_null source cs = add_candidate source json_null cs
      walk_value (json_bool b) source cs = add_candidate source (json_bool b) cs
      walk_value (json_int n) source cs = add_candidate source (json_int n) cs
      walk_value (json_float s) source cs = add_candidate source (json_float s) cs
      walk_value (json_text s) source cs = add_candidate source (json_text s) cs

      pub walk_fields : Fields → String → Candidates → Option Candidates
      walk_fields no_fields source cs = some cs
      walk_fields (field key v fs) source cs =
          and_then (walk_value v ((source ⊕ ".") ⊕ key) cs) (λ cs'. walk_fields fs source cs')

      -- At most `n` elements, from an index on.
      pub walk_elements : ℕ → ℕ → Elements → String → Candidates → Option Candidates
      walk_elements zero index vs source cs = some cs
      walk_elements (suc n) index no_elements source cs = some cs
      walk_elements (suc n) index (element v vs) source cs =
          and_then (walk_value v (((source ⊕ "[") ⊕ decimal index) ⊕ "]") cs)
            (λ cs'. walk_elements n (index + 1) vs source cs')

  -- `walk_value`, where `fuel` bounds how deep texts of JSON stand in each other.
  unfoldable pub walk : ℕ → Json → String → Candidates → Option Candidates
  unfolding walk_value
  walk zero v source cs = none
  walk (suc fuel) v source cs = walk_value (walk fuel) v source cs

  -- `_collect_candidate_texts`
  unfoldable pub collect_candidate_texts : ℕ → Fields → Option Candidates
  unfolding walk
  collect_candidate_texts fuel event = walk fuel (json_dict event) "event" []

abbrev pub update_key_pattern : String
update_key_pattern = "updateKey[\"\\']?\\s*[:=]\\s*[\"\\']([^\"\\']+)"

abbrev pub order_id_patterns : List String
order_id_patterns =
    "orderId(?:=|:|%3[Dd]|\\\\u003[dD])\\s*\"?(\\d{10,})"
    ∷ "bizOrderId[\"\\']?\\s*[:=]\\s*\"?(\\d{10,})"
    ∷ "order[_-]?id[\"\\']?\\s*[:=]\\s*\"?(\\d{10,})"
    ∷ "order[_-]?detail\\?(?:[^\\s#]*?&)?id=(\\d{10,})"
    ∷ "order-detail\\?(?:[^\\s#]*?&)?orderId=(\\d{10,})" ∷ []

-- `"` and `'`
unfoldable pub is_quote : ℕ → Bool
is_quote n = n ==ℕ 34 || n ==ℕ 39

module _ (re_search : String → String → Option String)
    (re_findall : String → String → Option String) (is_digit : ℕ → Bool)
    (lower_case : String → String) where
  all_digits : String → Bool
  all_digits String.[] = true
  all_digits (String.◌∷◌ c s) = is_digit (code c) && all_digits s

  -- `part.isdigit() and len(part) >= 16`
  unfoldable pub is_long_number : String → Bool
  unfolding all_digits
  is_long_number part = all_digits part && leb 16 (Chars.count part)

  -- The first of the parts between colons that is a long number.
  unfoldable pub first_long_number : List String → Option String
  unfolding is_long_number strip strip_by is_quote
  first_long_number [] = none
  first_long_number (part ∷ parts) =
      let trimmed = strip_by is_quote (strip part) in
      if is_long_number trimmed then some trimmed else first_long_number parts

  -- What follows the search for an update key: the text, and whether it is the key's.
  unfoldable pub number_in : String → Bool → String
  unfolding split_on first_long_number
  number_in text is_key =
      let (part, parts) = split_on 58 text in
      elim (first_long_number (part ∷ parts)) [
        | some number ↦ number
        | none ↦
            if is_key
            then elim (re_findall "\\d{16,}" text) [ some number ↦ number | none ↦ "" ]
            else ""
      ]

  unfoldable pub extract_order_id_from_update_key : String → String
  unfolding number_in strip
  extract_order_id_from_update_key raw_text =
      let text = strip raw_text in
      if text == "" then "" else elim (re_search update_key_pattern text) [
        | some key ↦ number_in key true
        | none ↦ number_in text false
      ]

  unfoldable pub search_all : List String → String → Option String
  search_all [] text = none
  search_all (p ∷ ps) text = elim (re_search p text) [
    | some number ↦ some number
    | none ↦ search_all ps text
  ]

  unfoldable pub names_update_key : String → String → Bool
  names_update_key text source =
      is_in "updatekey" (lower_case source)
      || is_in "updatekey" (lower_case text)
      || (is_in "trade_" (lower_case text) && is_in ":" text)
      || (is_in "buyer_confirm" (lower_case text) && is_in ":" text)

  unfoldable pub extract_order_id_from_candidate_text : String → String → String
  unfolding search_all names_update_key extract_order_id_from_update_key strip
  extract_order_id_from_candidate_text raw_text source =
      let text = strip raw_text in
      if text == "" then "" else elim (search_all order_id_patterns text) [
        | some number ↦ number
        | none ↦ if names_update_key text source then extract_order_id_from_update_key text else ""
      ]
