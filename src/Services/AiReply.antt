-- ===== src/Services/AiReply.antt =====
-- app/services/ai_reply.py: the provider of a setting, the check of a configuration, and the stored
-- conversations. The tables are lists of rows; a conversation's row has its `id`.
pub mod Context
mod Examples
use xianyu_manager.Text.{lower, strip}
use xianyu_manager.Dict.{Dict, lookup}
use xianyu_manager.Prelude.{
  ◌+◌, ◌++◌, ◌==◌, Bool, List, Option, String, [], false, if◌then◌else◌, ltb, max, none, not, some,
  suc, true, zero, ◌||◌, ℕ, ◌∷◌,
}
use Prim.Native.String.{◌++◌ as ◌⊕◌}

pub data AiProvider : Type 0 where
  openai openai_compatible gemini disabled : AiProvider

-- `provider.value`
unfoldable pub value : AiProvider → String
value openai = "openai"
value openai_compatible = "openai_compatible"
value gemini = "gemini"
value disabled = "disabled"

abbrev pub mapping : Dict AiProvider
mapping =
    ("openai", openai)
    ∷ ("gpt", openai)
    ∷ ("gpt-4", openai)
    ∷ ("gpt-3.5", openai)
    ∷ ("openai_compatible", openai_compatible)
    ∷ ("compatible", openai_compatible)
    ∷ ("gemini", gemini)
    ∷ ("google", gemini)
    ∷ ("disabled", disabled)
    ∷ ("none", disabled)
    ∷ ("", disabled)
    ∷ []

-- `none` is the `UnsupportedProviderError`. The Kelvin sign is no letter of a name.
unfoldable pub resolve_provider : String → Option AiProvider
unfolding lookup lower strip
resolve_provider provider_type = lookup (strip (lower provider_type)) mapping

pub record Setting : Type 0 where
  pub provider_type : String
  pub enabled : Bool

pub record Message : Type 0 where
  pub id : ℕ
  pub session_key : String
  pub role : String
  pub content : String

pub record Database : Type 0 where
  pub ai_settings : List Setting
  pub conversations : List Message

-- `SELECT ... FROM ai_settings WHERE enabled=1 LIMIT 1`
unfoldable pub active_setting : List Setting → Option Setting
active_setting [] = none
active_setting (s ∷ ss) = if s.enabled then some s else active_setting ss

-- The reply, which is a stub: it is empty, or the setting's provider raises `none`.
unfoldable pub generate_reply : Database → Option String
unfolding active_setting resolve_provider
generate_reply db = elim (active_setting db.ai_settings) [
  | none ↦ some ""
  | some s ↦ elim (resolve_provider s.provider_type) [ none ↦ none | some _ ↦ some "" ]
]

abbrev pub unsupported : String → String
unsupported provider_type =
    (("Unsupported AI provider: '" ⊕ provider_type) ⊕ "'. ")
    ⊕ "Supported: openai, openai_compatible, gemini, disabled"

unfoldable pub is_disabled : AiProvider → Bool
is_disabled disabled = true
is_disabled _ = false

-- Whether the configuration is usable, and what is said of it.
unfoldable pub test_connection : String → String → Bool → Bool × String
unfolding resolve_provider value is_disabled strip
test_connection provider_type api_key enabled = elim (resolve_provider provider_type) [
  | none ↦ (false, unsupported provider_type)
  | some provider ↦
      if is_disabled provider || not enabled
      then (true, "AI replies are disabled")
      else if strip api_key == ""
      then (false, "API key is required")
      else (true, value provider ⊕ " configuration looks valid")
]

-- The rows of a session, from the last id on: `WHERE session_key=? ORDER BY id DESC`.
unfoldable pub place : Message → List Message → List Message
place m [] = m ∷ []
place m (x ∷ xs) = let rest = place m xs in if ltb m.id x.id then x ∷ rest else m ∷ x ∷ xs

unfoldable pub latest_first : String → List Message → List Message
unfolding place
latest_first session_key [] = []
latest_first session_key (m ∷ ms) =
    let rest = latest_first session_key ms in
    if m.session_key == session_key then place m rest else rest

-- `LIMIT ?`, and `reversed(rows)`.
unfoldable pub take : ℕ → List Message → List Message
take zero ms = []
take (suc n) [] = []
take (suc n) (m ∷ ms) = m ∷ take n ms

unfoldable pub reversed : List Message → List Message
reversed [] = []
reversed (m ∷ ms) = reversed ms ++ m ∷ []

-- The role and the content of a row.
unfoldable pub lines_of : List Message → List (String × String)
lines_of [] = []
lines_of (m ∷ ms) = (m.role, m.content) ∷ lines_of ms

unfoldable pub get_conversation_context : String → ℕ → Database → List (String × String)
unfolding latest_first take reversed lines_of
get_conversation_context session_key limit db =
    lines_of (reversed (take limit (latest_first session_key db.conversations)))

-- The id that SQLite gives: one more than the largest.
unfoldable pub next_id : List Message → ℕ
next_id [] = 1
next_id (m ∷ ms) = max (m.id + 1) (next_id ms)

unfoldable pub inserted : String → String → String → Database → Database
unfolding next_id
inserted session_key role content db = record db {
  conversations =
      db.conversations
      ++ record {
        id = next_id db.conversations;
        session_key = session_key;
        role = role;
        content = content;
      }
        ∷ [];
}

-- `CHECK (role IN (...))`
abbrev pub is_role : String → Bool
is_role role = role == "user" || role == "assistant"

-- `none` is the `IntegrityError` of a role that the table does not allow.
unfoldable pub save_message : String → String → String → Database → Option Database
unfolding inserted
save_message session_key role content db =
    if is_role role then some (inserted session_key role content db) else none
