-- ===== src/Api/Replies/Examples.antt =====
-- Keywords with one id in both tables, and the theorems at them.
use xianyu_manager.Api.{answered}
use xianyu_manager.Api.Table.{delete, find, top, update}
use xianyu_manager.Api.Replies.Export.{contents, exported, import_reply_keywords-exported, restored}
use xianyu_manager.Api.Replies.Texts.{
  create_default_reply, create_item_reply, delete_default_reply, delete_item_reply,
  list_item_replies, ordered_keywords, place_keyword, query_keywords, rows_of, update_default_reply,
  update_item_reply, no_item_reply,
}
use xianyu_manager.Api.Replies.{
  KeywordRequest, KeywordUpdateRequest, ReplyTables, count, create_keyword, delete_reply_keyword,
  export_reply_keywords, insert_keyword_row, too_short, update_reply_keyword,
}
use xianyu_manager.Services.ReplyPolicy.{Keyword}
use xianyu_manager.Prelude.{Option, String, [], false, none, refl, some, true, ◌∷◌, ◌≡◌, map}

abbrev request : String → Option String → KeywordRequest
request pattern_text item_id = record {
  pattern_text = pattern_text;
  reply_content = "yes";
  item_id = item_id;
  is_regex = false;
  enabled = true;
}

abbrev keyword : String → String → Keyword
keyword pattern_text item_id = record {
  item_id = item_id;
  pattern_text = pattern_text;
  reply_content = "yes";
  is_regex = false;
  enabled = true;
}

abbrev tables : ReplyTables
tables = record {
  keywords = record { id = 1; row = keyword "price" "" } ∷ [];
  item_keywords = record { id = 1; row = keyword "new?" "lamp" } ∷ [];
  default_replies = [];
  item_replies = [];
}

abbrev empty : ReplyTables
empty = record { keywords = []; item_keywords = []; default_replies = []; item_replies = [] }

-- Two requests give both keywords one id.
same_id :
    (create_keyword
      (request "new?" (some "lamp"))
      (create_keyword (request "price" none) empty).1).1
    ≡ tables
unfolding create_keyword insert_keyword_row top
same_id = refl

listed : map (λ k. k.pattern_text) (query_keywords tables) ≡ "new?" ∷ "price" ∷ []
unfolding query_keywords ordered_keywords place_keyword
listed = refl

replies :
    let t = (create_item_reply "lamp" "still here" true tables).1 in
    let u = (update_item_reply 1 "desk" "gone" false t).1 in
    ((list_item_replies "lamp" t)
      ≡ answered (
          record {
            id = 1;
            row = record { item_id = "lamp"; content = "still here"; enabled = true };
          }
          ∷ []))
    × (list_item_replies "lamp" u ≡ answered [])
    × ((delete_item_reply 1 u).1 ≡ tables)
    × ((delete_item_reply 2 u).0 ≡ no_item_reply)
    × ((delete_default_reply 1 (create_default_reply "hello" true tables).1).1 ≡ tables)
    × ((update_default_reply 1 "" true tables).0 ≡ too_short)
unfolding create_item_reply update_item_reply list_item_replies rows_of delete_item_reply top find
    update delete create_default_reply delete_default_reply update_default_reply
replies = (refl, refl, refl, refl, refl, refl)

import_reply_keywords-exported_example :
    ((restored tables empty).0 ≡ answered 2)
    × (contents (restored tables empty).1.keywords ≡ keyword "price" "" ∷ [])
    × (contents (restored tables empty).1.item_keywords ≡ keyword "new?" "lamp" ∷ [])
unfolding exported export_reply_keywords count
import_reply_keywords-exported_example =
    import_reply_keywords-exported tables empty ((refl, refl, refl), tt) ((refl, refl, refl), tt)

abbrev change : KeywordUpdateRequest
change = record { pattern_text = "cost"; reply_content = "no"; is_regex = false; enabled = true }

-- Both tables have a keyword with the id 1.
general_keyword_first :
    ((update_reply_keyword 1 change tables).1.item_keywords ≡ tables.item_keywords)
    × ((delete_reply_keyword 1 tables).1.item_keywords ≡ tables.item_keywords)
    × ((delete_reply_keyword 1 tables).0 ≡ answered tt)
    × ((delete_reply_keyword 1 tables).1.keywords ≡ [])
unfolding update_reply_keyword delete_reply_keyword find delete update
general_keyword_first = (refl, refl, refl, refl)
