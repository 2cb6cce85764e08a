-- ===== src/Services/ReplyPolicy/Examples.antt =====
-- A message that two keywords match, and the theorem at these tables.
use xianyu_manager.Text.{lower}
use xianyu_manager.Services.ReplyPolicy.Candidates.{candidates, first, resolve-first_candidate}
use xianyu_manager.Services.ReplyPolicy.{
  Keyword, Tables, default_reply, first_match, item_reply, matches, resolve, select_enabled,
  select_item,
}
use xianyu_manager.Prelude.{Bool, Option, String, [], false, none, refl, some, true, ◌∷◌, ◌≡◌}
use xianyu_manager.Text

abbrev no_regex : String → String → Option Bool
no_regex _ _ = none

abbrev keyword : String → String → String → Bool → Keyword
keyword item_id pattern_text reply_content enabled = record {
  item_id = item_id;
  pattern_text = pattern_text;
  reply_content = reply_content;
  is_regex = false;
  enabled = enabled;
}

abbrev tables : Tables
tables = record {
  item_replies = record { item_id = "1"; content = "gone"; enabled = false } ∷ [];
  item_keywords = keyword "2" "price" "other item" true ∷ keyword "1" "Price" "9.50" true ∷ [];
  keywords = keyword "" "price" "ask" true ∷ [];
  default_replies = record { item_id = ""; content = "hello"; enabled = true } ∷ [];
}

item_keyword_wins :
    resolve Text.lower no_regex tables "1" "the PRICE?"
    ≡ some (record { reply_text = "9.50"; source = "item_keyword"; matched_pattern = "Price" })
unfolding resolve item_reply first_match default_reply select_item select_enabled matches Text.lower
item_keyword_wins = refl

resolve-first_candidate_example :
    resolve Text.lower no_regex tables "3" "the PRICE?"
    ≡ first (candidates Text.lower no_regex "3" "the PRICE?" tables)
resolve-first_candidate_example =
    resolve-first_candidate Text.lower no_regex "3" "the PRICE?" tables
