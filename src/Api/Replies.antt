-- ===== src/Api/Replies.antt =====
-- app/api/routers/replies.py: the requests on keywords and replies, over the tables that
-- Services/ReplyPolicy reads, here with the keys of their rows. Tables are in the order of their keys;
-- an id below zero is one that no row has. A row of `keywords` has the empty item, which a row of
-- `item_keywords` cannot have from a request. The lower bounds on lengths are those of the request's
-- schema, whose failure comes before the handler.
pub mod Export
pub mod Texts
mod Examples
use xianyu_manager.Api.{Answer, answered, not_found, refused, unprocessable}
use xianyu_manager.Api.Table.{delete, find, next_id, update}
use xianyu_manager.Services.ReplyPolicy.{Keyword, Reply, Tables}
use xianyu_manager.Dict.{is_some}
use xianyu_manager.Prelude.{
  Bool, List, Option, String, [], false, if◌then◌else◌, none, not, some, true, ℕ, ◌++◌, ◌==◌, ◌&&◌,
  ◌||◌, ◌∷◌, map, suc,
}

pub record KeywordRow : Type 0 where
  pub id : ℕ
  pub row : Keyword

pub record ReplyRow : Type 0 where
  pub id : ℕ
  pub row : Reply

pub record ReplyTables : Type 0 where
  pub keywords : List KeywordRow
  pub item_keywords : List KeywordRow
  pub default_replies : List ReplyRow
  pub item_replies : List ReplyRow

abbrev pub keyword_key : KeywordRow → ℕ
keyword_key k = k.id

abbrev pub reply_key : ReplyRow → ℕ
reply_key r = r.id

-- The request that creates a keyword, and an entry of an import.
pub record KeywordRequest : Type 0 where
  pub pattern_text : String
  pub reply_content : String
  pub item_id : Option String
  pub is_regex : Bool
  pub enabled : Bool

pub record KeywordUpdateRequest : Type 0 where
  pub pattern_text : String
  pub reply_content : String
  pub is_regex : Bool
  pub enabled : Bool

pub record KeywordResponse : Type 0 where
  pub id : ℕ
  pub pattern_text : String
  pub reply_content : String
  pub item_id : Option String
  pub is_regex : Bool
  pub enabled : Bool
  pub scope : String

abbrev pub too_short {ℓ} : {A : Type ℓ} → Answer A
too_short = refused (unprocessable "String should have at least 1 character")

abbrev pub no_keyword {ℓ} : {A : Type ℓ} → Answer A
no_keyword = refused (not_found "Keyword not found")

abbrev pub item_text : Option String → String
item_text none = ""
item_text (some item_id) = item_id

-- `if payload.item_id`
abbrev pub has_item : KeywordRequest → Bool
has_item q = not (item_text q.item_id == "")

abbrev pub keyword_of : KeywordRequest → Keyword
keyword_of q = record {
  item_id = item_text q.item_id;
  pattern_text = q.pattern_text;
  reply_content = q.reply_content;
  is_regex = q.is_regex;
  enabled = q.enabled;
}

-- `NULL AS item_id` for a keyword of no item.
abbrev pub map_keyword_row : Bool → KeywordRow → KeywordResponse
map_keyword_row of_item k = record {
  id = k.id;
  pattern_text = k.row.pattern_text;
  reply_content = k.row.reply_content;
  item_id = if of_item then some k.row.item_id else none;
  is_regex = k.row.is_regex;
  enabled = k.row.enabled;
  scope = if of_item then "item" else "general";
}

abbrev pub added : Keyword → List KeywordRow → List KeywordRow
added row rows = rows ++ record { id = next_id keyword_key rows; row = row } ∷ []

unfoldable pub insert_keyword_row : KeywordRequest → ReplyTables → ReplyTables
insert_keyword_row q t =
    if has_item q
    then record t { item_keywords = added (keyword_of q) t.item_keywords }
    else record t { keywords = added (keyword_of q) t.keywords }

-- The row that was written is the last of its table.
unfoldable pub create_keyword : KeywordRequest → ReplyTables → Answer KeywordResponse × ReplyTables
unfolding insert_keyword_row
create_keyword q t =
    let rows = if has_item q then t.item_keywords else t.keywords in
    if q.pattern_text == "" then (too_short, t) else (
      answered (
          map_keyword_row (has_item q)
            (record { id = next_id keyword_key rows; row = keyword_of q })),
      insert_keyword_row q t,
    )

-- The table and the row of an id: true for `item_keywords`.
unfoldable pub find_keyword_location : ℕ → ReplyTables → Option (Bool × KeywordRow)
find_keyword_location keyword_id t = elim (find keyword_key keyword_id t.keywords) [
  | some row ↦ some (false, row)
  | none ↦ elim (find keyword_key keyword_id t.item_keywords) [
    | some row ↦ some (true, row)
    | none ↦ none
  ]
]

abbrev pub changed : KeywordUpdateRequest → KeywordRow → KeywordRow
changed q k = record k {
  row = record k.row {
    pattern_text = q.pattern_text;
    reply_content = q.reply_content;
    is_regex = q.is_regex;
    enabled = q.enabled;
  };
}

unfoldable pub update_reply_keyword :
    ℕ → KeywordUpdateRequest → ReplyTables → Answer KeywordResponse × ReplyTables
unfolding find_keyword_location
update_reply_keyword keyword_id q t =
    if q.pattern_text == "" then (too_short, t) else elim (find_keyword_location keyword_id t) [
      | none ↦ (no_keyword, t)
      | some (of_item, row) ↦ (
        answered (map_keyword_row of_item (changed q row)),
        if of_item
            then record t {
              item_keywords = update keyword_key keyword_id (changed q) t.item_keywords;
            }
            else record t { keywords = update keyword_key keyword_id (changed q) t.keywords },
      )
    ]

unfoldable pub delete_reply_keyword : ℕ → ReplyTables → Answer {0} Unit × ReplyTables
delete_reply_keyword keyword_id t =
    if is_some (find keyword_key keyword_id t.keywords)
    then (answered tt, record t { keywords = delete keyword_key keyword_id t.keywords })
    else if is_some (find keyword_key keyword_id t.item_keywords)
    then (answered tt, record t { item_keywords = delete keyword_key keyword_id t.item_keywords })
    else (no_keyword, t)

unfoldable pub insert_all : List KeywordRequest → ReplyTables → ReplyTables
unfolding insert_keyword_row
insert_all [] t = t
insert_all (q ∷ qs) t = insert_all qs (insert_keyword_row q t)

-- The schema of an entry asks for a reply, other than that of a new keyword.
abbrev pub is_entry : KeywordRequest → Bool
is_entry q = not (q.pattern_text == "") && not (q.reply_content == "")

unfoldable pub are_entries : List KeywordRequest → Bool
are_entries [] = true
are_entries (q ∷ qs) = is_entry q && are_entries qs

unfoldable pub count : List KeywordRequest → ℕ
count [] = 0
count (q ∷ qs) = suc (count qs)

unfoldable pub import_reply_keywords : List KeywordRequest → ReplyTables → Answer ℕ × ReplyTables
unfolding insert_all are_entries count
import_reply_keywords payload t =
    if are_entries payload then (answered (count payload), insert_all payload t) else (too_short, t)

-- The keywords, and the item keywords.
unfoldable pub export_reply_keywords : ReplyTables → List KeywordResponse × List KeywordResponse
export_reply_keywords t =
    (map (map_keyword_row false) t.keywords, map (map_keyword_row true) t.item_keywords)
