-- ===== src/Services/AiReply/Context.antt =====
-- The context of a conversation after a message is saved.
use xianyu_manager.Services.AiReply.{
  Database, Message, get_conversation_context, latest_first, lines_of, next_id, place, reversed,
  save_message, take, inserted, is_role,
}
use xianyu_manager.Prelude.{
  ◌++◌, ◌<◌, ◌==◌, All, Bool, Bool-cases, List, String, [], arith, eq_iff, eq_refl, false,
  if◌then◌else◌, inl, inr, lt→ltb, refl, suc, sym, true, ℕ, ◌∷◌, ◌≡◌, ◌≤◌, none, some, ◌⊎◌,
}

next_id-lt : (n : ℕ) (ms : List Message) → next_id ms ≤ n → All (λ m. m.id < n) ms
unfolding next_id
next_id-lt n [] le = tt
next_id-lt n (m ∷ ms) le = (omega arith, next_id-lt n ms (omega arith))

module _ (new : Message) where
  latest_first-same :
      (ms : List Message)
      → All (λ m. m.id < new.id) ms
      → latest_first new.session_key (ms ++ new ∷ []) ≡ new ∷ latest_first new.session_key ms
  unfolding latest_first place
  latest_first-same [] h = rw (eq_refl new.session_key) refl
  latest_first-same (m ∷ ms) h =
      rw (latest_first-same ms h.1, lt→ltb m.id new.id h.0)
        (by_key (m.session_key == new.session_key) (latest_first new.session_key ms))
    where
      by_key :
          (b : Bool) (rest : List Message)
          → (if b then new ∷ place m rest else new ∷ rest)
            ≡ new ∷ (if b then place m rest else rest)
      by_key true rest = refl
      by_key false rest = refl

  latest_first-other :
      (other : String) (ms : List Message)
      → (new.session_key == other) ≡ false
      → latest_first other (ms ++ new ∷ []) ≡ latest_first other ms
  unfolding latest_first
  latest_first-other other [] h = rw h refl
  latest_first-other other (m ∷ ms) h = rw (latest_first-other other ms h) refl

lines_of-append : (ms ns : List Message) → lines_of (ms ++ ns) ≡ lines_of ms ++ lines_of ns
unfolding lines_of
lines_of-append [] ns = refl
lines_of-append (m ∷ ms) ns = rw (lines_of-append ms ns) refl

get_conversation_context-inserted :
    (key role content other : String) (limit : ℕ) (db : Database)
    → get_conversation_context other (suc limit) (inserted key role content db) ≡ (
        if key == other
        then get_conversation_context other limit db ++ (role, content) ∷ []
        else get_conversation_context other (suc limit) db)
unfolding get_conversation_context inserted take reversed
get_conversation_context-inserted key role content other limit db =
    elim (Bool-cases (key == other)) [
      | inl b ↦
          rw
            (
              b,
              sym ((eq_iff key other).0 b),
              latest_first-same new db.conversations
                  (next_id-lt (next_id db.conversations) db.conversations (omega arith)),
            )
            (rw
              (lines_of-append (reversed (take limit (latest_first key db.conversations)))
                (new ∷ []))
              refl)
      | inr b ↦ rw (b, latest_first-other new other db.conversations b) refl
    ]
  where
    new : Message
    new = record {
      id = next_id db.conversations;
      session_key = key;
      role = role;
      content = content;
    }

-- A message that is saved is the last one of its session's context, behind the lines of a context that
-- is one shorter; the context of every other session stays as it was. It is saved exactly if the table
-- allows its role.
pub get_conversation_context-save_message :
    (key role content other : String) (limit : ℕ) (db : Database)
    → ((is_role role ≡ false) × (save_message key role content db ≡ none))
      ⊎ ((after : Database) × (save_message key role content db ≡ some after)
          × (is_role role ≡ true)
          × (get_conversation_context other (suc limit) after ≡ (
              if key == other
              then get_conversation_context other limit db ++ (role, content) ∷ []
              else get_conversation_context other (suc limit) db)))
unfolding save_message
get_conversation_context-save_message key role content other limit db =
    by_role (is_role role) refl (get_conversation_context-inserted key role content other limit db)
  where
    IsContext : Database → Type 0
    IsContext d = get_conversation_context other (suc limit) d ≡ (
        if key == other
        then get_conversation_context other limit db ++ (role, content) ∷ []
        else get_conversation_context other (suc limit) db)

    after : Database
    after = inserted key role content db

    by_role :
        (b : Bool)
        → is_role role ≡ b
        → IsContext after
        → ((is_role role ≡ false) × ((if b then some after else none) ≡ none))
          ⊎ ((d : Database) × ((if b then some after else none) ≡ some d)
              × (is_role role ≡ true)
              × IsContext d)
    by_role true e h = inr (after, refl, e, h)
    by_role false e h = inl (e, refl)
