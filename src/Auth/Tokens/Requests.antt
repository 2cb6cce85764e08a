-- ===== src/Auth/Tokens/Requests.antt =====
-- app/api/dependencies.py with app/auth/sessions.py: requests that show the token of a session.
use xianyu_manager.Auth.Tokens.{accept, token_of_request, verify_token}
use xianyu_manager.Text.{strip}
use xianyu_manager.Dict.{lookup}
use xianyu_manager.Prelude.{
  ◌*◌, ◌+◌, ◌==◌, List, Option, String, false, if◌then◌else◌, leb, none, refl, some, true, ℕ, ◌≡◌,
  ap, ◌∙◌,
}
use Prim.Native.String as Chars
use Prim.Native.String.{◌++◌ as ◌⊕◌}
use text.Mathlib.Text.{starts_with}
use text.Mathlib.TextPositions.{len-append, slice-append_right, starts_with_of_prefix}
use xianyu_manager.Auth.Sessions
use xianyu_manager.Auth.Sessions.{SessionStore, create_session, validate_session}
use xianyu_manager.Auth.Sessions.Lifetime.{
  Call, run, IsStore, Spares, validate_session-create_session,
}

-- The ways to show a token: in the header, with or without a cookie, or in the cookie, with no header
-- or one of another scheme; with any text around it that stripping removes.
pub data Shows (token : String) : Option String → Option String → Type 0 where
  in_header :
      (text : String) (session_cookie : Option String)
      → strip text ≡ token
      → Shows token (some ("Bearer " ⊕ text)) session_cookie
  in_cookie : (text : String) → strip text ≡ token → Shows token none (some text)
  beside_header :
      (text header : String)
      → starts_with header "Bearer " ≡ false
      → strip text ≡ token
      → Shows token (some header) (some text)

bearer : (text : String) → starts_with ("Bearer " ⊕ text) "Bearer " ≡ true
bearer text = starts_with_of_prefix "Bearer " ("Bearer " ⊕ text) (text, refl)

behind_bearer :
    (text : String) → Chars.slice ("Bearer " ⊕ text) 7 (Chars.len ("Bearer " ⊕ text)) ≡ text
behind_bearer text =
    ap (Chars.slice ("Bearer " ⊕ text) 7) (len-append "Bearer " text)
    ∙ slice-append_right "Bearer " text

Shows-token_of_request :
    {token : String} {authorization session_cookie : Option String}
    → Shows token authorization session_cookie
    → token_of_request authorization session_cookie ≡ token
unfolding token_of_request
Shows-token_of_request (in_header text cookie e) =
    rw (bearer text) (ap strip (behind_bearer text) ∙ e)
Shows-token_of_request (in_cookie text e) = e
Shows-token_of_request (beside_header text header h e) = rw h e

-- A request that shows the token of a session is accepted exactly as long as the session lasts: up to
-- `ttl_seconds` after its creation at `now`, whatever other sessions were created, looked at, revoked or
-- cleaned up in between, if this token was neither revoked nor created again and the clock did not go
-- back; else it is refused. It shows the token in a header behind "Bearer ", whatever cookie comes with
-- it, or in the cookie, with no such header; in both, space around the token does not count.
pub verify_token-Shows :
    (now last : ℕ) (token : String) (ttl_seconds : ℕ) (cs : List (ℕ × Call)) (s : SessionStore)
    (authorization session_cookie : Option String)
    → Shows token authorization session_cookie
    → (token == "") ≡ false
    → IsStore s
    → lookup token s.sessions ≡ none
    → Spares token now cs last
    → (verify_token last authorization session_cookie
        (run cs (Sessions.create_session now token ttl_seconds s).1)).0
      ≡ (if leb last (now + ttl_seconds * 1000) then some token else none)
unfolding verify_token accept
verify_token-Shows now last token ttl cs s authorization cookie shown given h new sp =
    let found : token_of_request authorization cookie ≡ token = Shows-token_of_request shown in
    rw (found, given, validate_session-create_session now last token ttl cs s h new sp) refl
