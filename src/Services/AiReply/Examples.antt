-- ===== src/Services/AiReply/Examples.antt =====
-- A conversation, a provider, and the theorem at them.
use xianyu_manager.Text.{lower, strip}
use xianyu_manager.Dict.{lookup}
use xianyu_manager.Services.AiReply.Context.{get_conversation_context-save_message}
use xianyu_manager.Services.AiReply.{
  Database, active_setting, generate_reply, get_conversation_context, is_disabled, latest_first,
  lines_of, next_id, place, resolve_provider, reversed, save_message, take, test_connection, value,
  inserted, is_role,
}
use xianyu_manager.Prelude.{
  ◌++◌, ◌==◌, [], false, if◌then◌else◌, refl, some, true, ◌∷◌, ◌≡◌, none, ◌⊎◌,
}

abbrev db : Database
db = record {
  ai_settings = record { provider_type = "GPT-4"; enabled = true } ∷ [];
  conversations =
      record { id = 3; session_key = "s"; role = "user"; content = "hi" }
      ∷ record { id = 4; session_key = "t"; role = "user"; content = "yo" }
      ∷ [];
}

connections :
    (test_connection " GPT-4" "key" true ≡ (true, "openai configuration looks valid"))
    × (test_connection "gemini" "  " true ≡ (false, "API key is required"))
    × ((test_connection "claude" "key" true).0 ≡ false)
    × (generate_reply db ≡ some "")
unfolding test_connection generate_reply active_setting resolve_provider is_disabled value lookup
    lower strip
connections = (refl, refl, refl, refl)

abbrev after : Database
after = inserted "s" "assistant" "hello" db

context : get_conversation_context "s" 2 after ≡ ("user", "hi") ∷ ("assistant", "hello") ∷ []
unfolding get_conversation_context inserted next_id latest_first place take reversed lines_of
context = refl

get_conversation_context-save_message_example :
    ((is_role "assistant" ≡ false) × (save_message "s" "assistant" "hello" db ≡ none))
    ⊎ ((after : Database) × (save_message "s" "assistant" "hello" db ≡ some after)
        × (is_role "assistant" ≡ true)
        × (get_conversation_context "s" 2 after ≡ (
            if "s" == "s"
            then get_conversation_context "s" 1 db ++ ("assistant", "hello") ∷ []
            else get_conversation_context "s" 2 db)))
get_conversation_context-save_message_example =
    get_conversation_context-save_message "s" "assistant" "hello" "s" 1 db
