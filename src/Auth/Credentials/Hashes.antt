-- ===== src/Auth/Credentials/Hashes.antt =====
-- Who may log in: only the administrator, and only against a stored hash.
use xianyu_manager.Auth.Login.Verified.{login-verified}
use xianyu_manager.Auth.Credentials.{Settings, verify_admin_login, verify_password}
use xianyu_manager.Auth.Login.{Attempt, World, logged_in, login}
use xianyu_manager.Prelude.{
  ◌&&◌, ◌==◌, Bool, Option, String, false, some, ◌||◌, ℤ, ◌≡◌, ◌≢◌, arith, if◌then◌else◌, not, sym,
  true, ◌∙◌,
}
use text.Mathlib.Text.{starts_with}

-- The stored value is written like a hash that the service knows.
abbrev pub is_hash : String → Bool
is_hash stored = starts_with stored "$2" || starts_with stored "pbkdf2_sha256$"

module _ (checkpw : String → String → Option Bool)
    (pbkdf2_hmac : String → String → ℤ → Option String) (parse_int : String → Option ℤ) where
  verify_admin_login-false :
      (s : Settings) (username password : String)
      → (username == s.admin_username && is_hash s.admin_password_hash) ≡ false
      → verify_admin_login checkpw pbkdf2_hmac parse_int s username password ≡ some false
  unfolding verify_admin_login verify_password
  verify_admin_login-false s username password h =
      by_tests (username == s.admin_username) (s.admin_password_hash == "")
        (starts_with s.admin_password_hash "$2")
        (starts_with s.admin_password_hash "pbkdf2_sha256$") _ _ h
    where
      by_tests :
          (n e b p : Bool) (x y : Option Bool)
          → (n && (b || p)) ≡ false
          → (if not n
              then some false
              else if e
              then some false
              else if b
              then x
              else if p
              then y
              else some false)
            ≡ some false
      by_tests n e b p x y h = ground arith

  -- A login over the credentials of the settings never answers with a session, if the name is not the
  -- administrator's, or if the stored value is not written like a hash of bcrypt or PBKDF2, whatever
  -- the password, the limiter and the sessions are: a stored plain password lets nobody in.
  pub login-verify_admin_login :
      (s : Settings) (a : Attempt) (w : World) (token : String)
      → (a.username == s.admin_username && is_hash s.admin_password_hash) ≡ false
      → (login (verify_admin_login checkpw pbkdf2_hmac parse_int s) a w).0 ≢ logged_in token
  login-verify_admin_login s a w token h e = absurd (
      clash (
        sym (verify_admin_login-false s a.username a.password h)
        ∙ login-verified a token (verify_admin_login checkpw pbkdf2_hmac parse_int s) w e))
    where
      clash : ¬ (some false ≡ some true)
      clash p = ground arith
