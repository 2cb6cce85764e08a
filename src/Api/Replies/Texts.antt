-- ===== src/Api/Replies/Texts.antt =====
-- app/api/routers/replies.py: the requests on default replies and on the replies of items, and the
-- list of all keywords.
use xianyu_manager.Api.{Answer, answered, not_found, refused}
use xianyu_manager.Api.Table.{delete, find, next_id, update}
use xianyu_manager.Api.Replies.{
  KeywordResponse, ReplyRow, ReplyTables, map_keyword_row, reply_key, too_short,
}
use xianyu_manager.Dict.{is_some}
use xianyu_manager.Prelude.{
  Bool, List, Option, String, [], false, if◌then◌else◌, none, some, true, ℕ, ◌++◌, ◌==◌, ◌∷◌, map,
}
use Prim.Native.String as Chars
use Prim.Native.Nat.{Ordering}

abbrev pub new_reply : String → String → Bool → List ReplyRow → ReplyRow
new_reply item_id content enabled rows = record {
  id = next_id reply_key rows;
  row = record { item_id = item_id; content = content; enabled = enabled };
}

abbrev pub written : String → String → Bool → ReplyRow → ReplyRow
written item_id content enabled r = record r {
  row = record { item_id = item_id; content = content; enabled = enabled };
}

abbrev pub no_default_reply {ℓ} : {A : Type ℓ} → Answer A
no_default_reply = refused (not_found "Default reply not found")

abbrev pub no_item_reply {ℓ} : {A : Type ℓ} → Answer A
no_item_reply = refused (not_found "Item reply not found")

-- An answer and the tables, or the failure and the tables as they were.
abbrev pub found {ℓ} :
    {A : Type ℓ} → Option A → Answer A → ReplyTables → ReplyTables → Answer A × ReplyTables
found none missing before after = (missing, before)
found (some row) missing before after = (answered row, after)

unfoldable pub create_default_reply : String → Bool → ReplyTables → Answer ReplyRow × ReplyTables
create_default_reply content enabled t =
    if content == ""
    then (too_short, t)
    else let row = new_reply "" content enabled t.default_replies in
      (answered row, record t { default_replies = t.default_replies ++ row ∷ [] })

unfoldable pub update_default_reply :
    ℕ → String → Bool → ReplyTables → Answer ReplyRow × ReplyTables
update_default_reply reply_id content enabled t =
    let rows = update reply_key reply_id (written "" content enabled) t.default_replies in
    if content == ""
    then (too_short, t)
    else found (find reply_key reply_id rows) no_default_reply t
        (record t { default_replies = rows })

unfoldable pub delete_default_reply : ℕ → ReplyTables → Answer {0} Unit × ReplyTables
delete_default_reply reply_id t =
    if is_some (find reply_key reply_id t.default_replies)
    then (answered tt, record t { default_replies = delete reply_key reply_id t.default_replies })
    else (no_default_reply, t)

unfoldable pub rows_of : String → List ReplyRow → List ReplyRow
rows_of item_id [] = []
rows_of item_id (r ∷ rs) =
    let rest = rows_of item_id rs in if r.row.item_id == item_id then r ∷ rest else rest

unfoldable pub list_item_replies : String → ReplyTables → Answer (List ReplyRow)
unfolding rows_of
list_item_replies item_id t =
    if item_id == "" then too_short else answered (rows_of item_id t.item_replies)

unfoldable pub create_item_reply :
    String → String → Bool → ReplyTables → Answer ReplyRow × ReplyTables
create_item_reply item_id content enabled t =
    if item_id == ""
    then (too_short, t)
    else let row = new_reply item_id content enabled t.item_replies in
      (answered row, record t { item_replies = t.item_replies ++ row ∷ [] })

unfoldable pub update_item_reply :
    ℕ → String → String → Bool → ReplyTables → Answer ReplyRow × ReplyTables
update_item_reply reply_id item_id content enabled t =
    let rows = update reply_key reply_id (written item_id content enabled) t.item_replies in
    if item_id == ""
    then (too_short, t)
    else found (find reply_key reply_id rows) no_item_reply t (record t { item_replies = rows })

unfoldable pub delete_item_reply : ℕ → ReplyTables → Answer {0} Unit × ReplyTables
delete_item_reply reply_id t =
    if is_some (find reply_key reply_id t.item_replies)
    then (answered tt, record t { item_replies = delete reply_key reply_id t.item_replies })
    else (no_item_reply, t)

-- `ORDER BY pattern, item_id`, where `NULL` comes first.
abbrev pub item_before : Option String → Option String → Bool
item_before none b = true
item_before (some a) none = false
item_before (some a) (some b) = elim (Chars.compare a b) [ Ordering.gt ↦ false | _ ↦ true ]

abbrev pub keyword_before : KeywordResponse → KeywordResponse → Bool
keyword_before a b = elim (Chars.compare a.pattern_text b.pattern_text) [
  | Ordering.lt ↦ true
  | Ordering.eq ↦ item_before a.item_id b.item_id
  | Ordering.gt ↦ false
]

unfoldable pub place_keyword : KeywordResponse → List KeywordResponse → List KeywordResponse
place_keyword k [] = k ∷ []
place_keyword k (j ∷ ks) =
    let rest = place_keyword k ks in if keyword_before k j then k ∷ j ∷ ks else j ∷ rest

unfoldable pub ordered_keywords : List KeywordResponse → List KeywordResponse
unfolding place_keyword
ordered_keywords [] = []
ordered_keywords (k ∷ ks) = place_keyword k (ordered_keywords ks)

unfoldable pub query_keywords : ReplyTables → List KeywordResponse
unfolding ordered_keywords
query_keywords t =
    ordered_keywords
      (map (map_keyword_row false) t.keywords ++ map (map_keyword_row true) t.item_keywords)
