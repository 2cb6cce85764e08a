-- ===== src/Services/ReplyPolicy.antt =====
-- app/services/reply_policy.py: the reply that a seller's own rules give to a message. The tables are
-- lists of rows in the order in which the queries read them. Python's `str.lower`, with its tables of
-- letters, and `re.search` are parameters; `none` of the latter is an exception of `re`.
pub mod Candidates
mod Examples
use xianyu_manager.Prelude.{
  ◌&&◌, ◌==◌, Bool, List, Option, String, [], false, if◌then◌else◌, none, some, ◌∷◌,
}
use xianyu_manager.Text.{is_in}

pub record ReplyResult : Type 0 where
  pub reply_text : String
  pub source : String
  pub matched_pattern : String

pub record Keyword : Type 0 where
  pub item_id : String
  pub pattern_text : String
  pub reply_content : String
  pub is_regex : Bool
  pub enabled : Bool

pub record Reply : Type 0 where
  pub item_id : String
  pub content : String
  pub enabled : Bool

-- The tables item_replies, item_keywords, keywords and default_replies; a row of the last two has no
-- item.
pub record Tables : Type 0 where
  pub item_replies : List Reply
  pub item_keywords : List Keyword
  pub keywords : List Keyword
  pub default_replies : List Reply

-- `WHERE item_id=? AND enabled=1`
abbrev pub for_item : String → Bool → String → Bool
for_item item_id enabled row_id = row_id == item_id && enabled

-- `... LIMIT 1` of the item's replies, then of the default ones.
unfoldable pub item_reply : String → List Reply → Option ReplyResult
item_reply item_id [] = none
item_reply item_id (row ∷ rows) =
    if for_item item_id row.enabled row.item_id
    then some (record { reply_text = row.content; source = "item_reply"; matched_pattern = "" })
    else item_reply item_id rows

unfoldable pub default_reply : List Reply → Option ReplyResult
default_reply [] = none
default_reply (row ∷ rows) =
    if row.enabled
    then some (record { reply_text = row.content; source = "default"; matched_pattern = "" })
    else default_reply rows

-- The first reply that there is: an early `return`, or the code behind it.
abbrev pub or_else : Option ReplyResult → Option ReplyResult → Option ReplyResult
or_else none rest = rest
or_else (some r) _ = some r

-- The rows with `item_id=? AND enabled=1`, and those with `enabled=1`.
unfoldable pub select_item : String → List Keyword → List Keyword
select_item item_id [] = []
select_item item_id (row ∷ rows) =
    let rest = select_item item_id rows in
    if for_item item_id row.enabled row.item_id then row ∷ rest else rest

unfoldable pub select_enabled : List Keyword → List Keyword
select_enabled [] = []
select_enabled (row ∷ rows) =
    let rest = select_enabled rows in if row.enabled then row ∷ rest else rest

module _ (lower_case : String → String) (re_search : String → String → Option Bool) where
  unfoldable pub matches : String → String → Bool → Bool
  matches message pattern_text is_regex =
      if is_regex
      then elim (re_search pattern_text message) [ some found ↦ found | none ↦ false ]
      else is_in (lower_case pattern_text) (lower_case message)

  -- The loop over the rows that a query has selected.
  unfoldable pub first_match : String → String → List Keyword → Option ReplyResult
  unfolding matches
  first_match source message [] = none
  first_match source message (row ∷ rows) =
      if matches message row.pattern_text row.is_regex
      then some (record {
        reply_text = row.reply_content;
        source = source;
        matched_pattern = row.pattern_text;
      })
      else first_match source message rows

  unfoldable pub resolve : Tables → String → String → Option ReplyResult
  unfolding item_reply first_match default_reply select_item select_enabled
  resolve t item_id message = or_else (item_reply item_id t.item_replies) (
      or_else (first_match "item_keyword" message (select_item item_id t.item_keywords)) (
        or_else (first_match "keyword" message (select_enabled t.keywords))
          (default_reply t.default_replies)))
