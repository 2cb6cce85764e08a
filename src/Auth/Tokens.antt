-- ===== src/Auth/Tokens.antt =====
-- app/api/dependencies.py: the session token that a request shows, and its check. A header or a cookie
-- that is missing is `none`; the outcome `none` is the answer 401.
pub mod Requests
mod Examples
use xianyu_manager.Text.{strip}
use xianyu_manager.Dict.{lookup}
use xianyu_manager.Prelude.{
  ◌*◌, ◌+◌, ◌==◌, Bool, List, Option, String, false, if◌then◌else◌, leb, none, refl, some, ℕ, ◌≡◌,
}
use Prim.Native.String as Chars
use text.Mathlib.Text.{starts_with}
use xianyu_manager.Auth.Sessions
use xianyu_manager.Auth.Sessions.{SessionStore, create_session, validate_session}

-- The token of the header, or else of the cookie.
unfoldable pub token_of_request : Option String → Option String → String
unfolding strip
token_of_request authorization session_cookie =
    let header : String = elim authorization [ none ↦ "" | some h ↦ h ] in
    if starts_with header "Bearer "
    then strip (Chars.slice header 7 (Chars.len header))
    else elim session_cookie [ none ↦ "" | some cookie ↦ strip cookie ]

-- `token` if its session is valid.
unfoldable pub accept : String → Bool × SessionStore → Option String × SessionStore
accept token (valid, s) = (if valid then some token else none, s)

unfoldable pub verify_token :
    ℕ → Option String → Option String → SessionStore → Option String × SessionStore
unfolding token_of_request accept
verify_token now authorization session_cookie s =
    let token = token_of_request authorization session_cookie in
    if token == "" then (none, s) else accept token (Sessions.validate_session now token s)
