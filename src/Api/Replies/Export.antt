-- ===== src/Api/Replies/Export.antt =====
-- app/api/routers/replies.py: an export of the keywords can be imported.
use xianyu_manager.Api.{Answer, answered}
use xianyu_manager.Api.Replies.{
  KeywordRequest, KeywordResponse, KeywordRow, ReplyTables, added, are_entries, count,
  export_reply_keywords, import_reply_keywords, insert_all, insert_keyword_row, keyword_of,
  map_keyword_row, too_short,
}
use xianyu_manager.Services.ReplyPolicy.{Keyword}
use xianyu_manager.Prelude.{
  Bool, List, [], false, if◌then◌else◌, not, true, ℕ, ◌++◌, ◌==◌, ◌∷◌, map, ◌≡◌, refl, arith, ap,
  All, append_assoc, sym, eq_iff, ◌∙◌,
}

-- An entry of an import with the fields of an exported keyword; its id and its scope are not read.
abbrev pub entry_of : KeywordResponse → KeywordRequest
entry_of r = record {
  pattern_text = r.pattern_text;
  reply_content = r.reply_content;
  item_id = r.item_id;
  is_regex = r.is_regex;
  enabled = r.enabled;
}

-- What an export holds, as the entries of an import.
unfoldable pub exported : ReplyTables → List KeywordRequest
unfolding export_reply_keywords
exported t =
    let (keywords, item_keywords) = export_reply_keywords t in
    map entry_of keywords ++ map entry_of item_keywords

abbrev pub contents : List KeywordRow → List Keyword
contents rows = map (λ k. k.row) rows

abbrev pub no_keywords : ReplyTables → ReplyTables
no_keywords t = record t { keywords = []; item_keywords = [] }

-- The keywords as requests leave them, with a reply: a general one has no item, an item's has one.
abbrev pub IsGeneral : KeywordRow → Type 0
IsGeneral k =
    ((k.row.item_id == "") ≡ true)
    × ((k.row.pattern_text == "") ≡ false)
    × ((k.row.reply_content == "") ≡ false)

abbrev pub IsOfItem : KeywordRow → Type 0
IsOfItem k =
    ((k.row.item_id == "") ≡ false)
    × ((k.row.pattern_text == "") ≡ false)
    × ((k.row.reply_content == "") ≡ false)

contents-added :
    (rows : List KeywordRow) (k : Keyword) → contents (added k rows) ≡ contents rows ++ k ∷ []
contents-added rows k = map_snoc rows _
  where
    map_snoc :
        (rows : List KeywordRow) (x : KeywordRow)
        → contents (rows ++ x ∷ []) ≡ contents rows ++ x.row ∷ []
    map_snoc [] x = refl
    map_snoc (y ∷ rows) x = ap (λ l. y.row ∷ l) (map_snoc rows x)

general_entries : (rows : List KeywordRow) → List KeywordRequest
general_entries rows = map entry_of (map (map_keyword_row false) rows)

item_entries : (rows : List KeywordRow) → List KeywordRequest
item_entries rows = map entry_of (map (map_keyword_row true) rows)

general-row :
    (k : KeywordRow) → IsGeneral k → keyword_of (entry_of (map_keyword_row false k)) ≡ k.row
general-row k h = ap (λ i. record k.row { item_id = i }) (sym ((eq_iff k.row.item_id "").0 h.0))

append_end : (ks : List Keyword) → ks ≡ ks ++ []
append_end [] = refl
append_end (k ∷ ks) = ap (λ l. k ∷ l) (append_end ks)

extended :
    (rows rest : List KeywordRow) (k : Keyword) (t : List Keyword)
    → t ≡ contents (added k rows) ++ contents rest
    → t ≡ contents rows ++ k ∷ contents rest
extended rows rest k t h =
    h
    ∙ ap (λ l. l ++ contents rest) (contents-added rows k)
    ∙ append_assoc (contents rows) (k ∷ []) (contents rest)

-- Entries for no item extend the table of keywords, and only it.
insert_all-general :
    (rows : List KeywordRow) (qs : List KeywordRequest) (t : ReplyTables)
    → All IsGeneral rows
    → (t' : ReplyTables) × (insert_all (general_entries rows ++ qs) t ≡ insert_all qs t')
      × (contents t'.keywords ≡ contents t.keywords ++ contents rows)
      × (t'.item_keywords ≡ t.item_keywords)
unfolding insert_all insert_keyword_row general_entries
insert_all-general [] qs t h = (t, refl, append_end (contents t.keywords), refl)
insert_all-general (k ∷ rows) qs t h =
    let (t', e, f, g) =
      insert_all-general rows qs
        (record t { keywords = added (keyword_of (entry_of (map_keyword_row false k))) t.keywords })
        h.1 in
    (
      t',
      e,
      extended t.keywords rows (keyword_of (entry_of (map_keyword_row false k)))
            (contents t'.keywords) f
          ∙ ap (λ x. contents t.keywords ++ x ∷ contents rows) (general-row k h.0),
      g,
    )

-- Entries for an item extend the table of item keywords.
insert_all-items :
    (rows : List KeywordRow) (t : ReplyTables)
    → All IsOfItem rows
    → ((insert_all (item_entries rows) t).keywords ≡ t.keywords)
      × (contents (insert_all (item_entries rows) t).item_keywords
          ≡ contents t.item_keywords ++ contents rows)
unfolding insert_all insert_keyword_row item_entries
insert_all-items [] t h = (refl, append_end (contents t.item_keywords))
insert_all-items (k ∷ rows) t h =
    by_item (k.row.item_id == "") h.0.0
      (insert_all-items rows (record t { item_keywords = added k.row t.item_keywords }) h.1)
  where
    t' : ReplyTables
    t' = record t { item_keywords = added k.row t.item_keywords }

    by_item :
        (b : Bool)
        → b ≡ false
        → ((insert_all (item_entries rows) t').keywords ≡ t.keywords)
          × (contents (insert_all (item_entries rows) t').item_keywords
              ≡ contents (added k.row t.item_keywords) ++ contents rows)
        → let u =
            insert_all
              (item_entries rows)
              (if not b then t' else record t { keywords = added k.row t.keywords }) in
          (u.keywords ≡ t.keywords)
          × (contents u.item_keywords ≡ contents t.item_keywords ++ k.row ∷ contents rows)
    by_item true e rest = absurd (ground arith)
    by_item false e rest = (rest.0, extended t.item_keywords rows k.row _ rest.1)

are_entries-append :
    (xs ys : List KeywordRequest)
    → are_entries xs ≡ true
    → are_entries ys ≡ true
    → are_entries (xs ++ ys) ≡ true
unfolding are_entries
are_entries-append [] ys h k = k
are_entries-append (x ∷ xs) ys h k = ground (arith, are_entries-append xs ys)

general_entries-are_entries :
    (rows : List KeywordRow) → All IsGeneral rows → are_entries (general_entries rows) ≡ true
unfolding are_entries general_entries
general_entries-are_entries [] h = refl
general_entries-are_entries (k ∷ rows) h =
    let (_, pattern_given, reply_given) = h.0 in
    let rest = general_entries-are_entries rows h.1 in ground arith

item_entries-are_entries :
    (rows : List KeywordRow) → All IsOfItem rows → are_entries (item_entries rows) ≡ true
unfolding are_entries item_entries
item_entries-are_entries [] h = refl
item_entries-are_entries (k ∷ rows) h =
    let (_, pattern_given, reply_given) = h.0 in
    let rest = item_entries-are_entries rows h.1 in ground arith

-- What an import makes of tables without keywords.
abbrev pub restored : ReplyTables → ReplyTables → Answer ℕ × ReplyTables
restored t t' = import_reply_keywords (exported t) (no_keywords t')

-- An import of what was exported, into tables without keywords, is accepted and gives the same keywords
-- and item keywords in their order, only with new ids; if each has a pattern and a reply, and those of
-- items their item.
pub import_reply_keywords-exported :
    (t t' : ReplyTables)
    → All IsGeneral t.keywords
    → All IsOfItem t.item_keywords
    → ((restored t t').0 ≡ answered (count (exported t)))
      × (contents (restored t t').1.keywords ≡ contents t.keywords)
      × (contents (restored t t').1.item_keywords ≡ contents t.item_keywords)
unfolding import_reply_keywords exported export_reply_keywords general_entries item_entries
import_reply_keywords-exported t t' h k =
    let (u, e, f, g) =
      insert_all-general t.keywords (item_entries t.item_keywords) (no_keywords t') h in
    let (f', g') = insert_all-items t.item_keywords u k in
    let accepted =
      are_entries-append (general_entries t.keywords) (item_entries t.item_keywords)
        (general_entries-are_entries t.keywords h) (item_entries-are_entries t.item_keywords k) in
    by_test (are_entries (exported t)) accepted
      (ap (λ v. contents v.keywords) e ∙ ap contents f' ∙ f)
      (ap (λ v. contents v.item_keywords) e
        ∙ g'
        ∙ ap (λ l. contents l ++ contents t.item_keywords) g)
  where
    inserted : ReplyTables
    inserted = insert_all (exported t) (no_keywords t')

    by_test :
        (b : Bool)
        → b ≡ true
        → contents inserted.keywords ≡ contents t.keywords
        → contents inserted.item_keywords ≡ contents t.item_keywords
        → let (answer, v) : Answer ℕ × ReplyTables =
            if b then (answered (count (exported t)), inserted) else (too_short, no_keywords t') in
          (answer ≡ answered (count (exported t)))
          × (contents v.keywords ≡ contents t.keywords)
          × (contents v.item_keywords ≡ contents t.item_keywords)
    by_test true e f g = (refl, f, g)
    by_test false e f g = absurd (ground arith)
