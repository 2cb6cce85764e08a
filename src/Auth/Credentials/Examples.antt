-- ===== src/Auth/Credentials/Examples.antt =====
-- A stored PBKDF2 hash, and the theorem at a stored plain password.
use xianyu_manager.Text.{split_on}
use xianyu_manager.Auth.Credentials.Hashes.{login-verify_admin_login}
use xianyu_manager.Auth.Credentials.{
  Settings, compare_digest, compare_pbkdf2, is_ascii, joined, verify_admin_login,
  verify_bcrypt_password, verify_parts, verify_password, verify_pbkdf2_password,
}
use xianyu_manager.Auth.Login.{Attempt, World, logged_in, login}
use xianyu_manager.Prelude.{
  ◌==◌, Bool, Option, String, false, if◌then◌else◌, negsuc, none, pos, refl, some, true, ℤ, ◌≡◌,
  ◌≢◌,
}
use xianyu_manager.Auth.RateLimiter
use xianyu_manager.Auth.Sessions

-- No bcrypt; a hash that shows its arguments; two numbers that are read.
abbrev no_bcrypt : String → String → Option Bool
no_bcrypt _ _ = none

abbrev show_hash : String → String → ℤ → Option String
show_hash password salt (pos n) = some password
show_hash password salt (negsuc _) = none

abbrev read_int : String → Option ℤ
read_int t = if t == "9" then some (pos 9) else if t == "-1" then some (negsuc 0) else none

verified :
    let verify = λ (stored password : String).
      verify_admin_login no_bcrypt show_hash read_int
        (record { admin_username = "admin"; admin_password_hash = stored })
        "admin"
        password in
    (verify "pbkdf2_sha256$9$salt$a$b" "a$b" ≡ some true)
    × (verify "pbkdf2_sha256$9$salt$a$b" "b" ≡ some false)
    × (verify "pbkdf2_sha256$x$salt$a" "a" ≡ some false)
    × (verify "pbkdf2_sha256$-1$salt$a" "a" ≡ none)
    × (verify "admin123" "admin123" ≡ some false)
unfolding verify_admin_login verify_password verify_bcrypt_password verify_pbkdf2_password
    verify_parts compare_pbkdf2 joined compare_digest is_ascii split_on
verified = (refl, refl, refl, refl, refl)

abbrev plain : Settings
plain = record { admin_username = "admin"; admin_password_hash = "admin123" }

abbrev attempt : Attempt
attempt = record {
  client_ip = "1.2.3.4";
  username = "admin";
  password = "admin123";
  cleanup_at = 1;
  check_ip_at = 1;
  check_user_at = 1;
  failure_at = 1;
  delay_at = 1;
  wall_clock = 1;
  token = "t";
}

abbrev world : World
world = record { limiter = RateLimiter.init; sessions = Sessions.init }

login-verify_admin_login_example :
    (login (verify_admin_login no_bcrypt show_hash read_int plain) attempt world).0 ≢ logged_in "t"
login-verify_admin_login_example =
    login-verify_admin_login no_bcrypt show_hash read_int plain attempt world "t" refl
