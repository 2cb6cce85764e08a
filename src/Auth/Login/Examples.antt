-- ===== src/Auth/Login/Examples.antt =====
-- Logins that run, and the theorems at inputs that meet their hypotheses.
use xianyu_manager.Auth.Login.Blacklist.{login_all-blacklists_none}
use xianyu_manager.Auth.Login.Success.{MayEnter, login-logged_in_iff}
use xianyu_manager.Auth.Login.{Attempt, World, login, login_all, logged_in}
use xianyu_manager.Prelude.{
  ◌&&◌, ◌==◌, Bool, List, Option, String, [], arith, some, ℕ, ◌↔◌, ◌∷◌, ◌≡◌,
}
use xianyu_manager.Auth.RateLimiter
use xianyu_manager.Auth.Sessions

abbrev only_admin : String → String → Option Bool
only_admin username password = some (username == "admin" && password == "secret")

abbrev attempt : ℕ → String → String → Attempt
attempt now password token = record {
  client_ip = "10.0.0.9";
  username = "admin";
  password = password;
  cleanup_at = now;
  check_ip_at = now;
  check_user_at = now;
  failure_at = now;
  delay_at = now;
  wall_clock = now;
  token = token;
}

abbrev empty_world : World
empty_world = record { limiter = RateLimiter.init; sessions = Sessions.init }

-- A wrong password from one address, every second for half a minute.
abbrev guesses : List Attempt
guesses =
    attempt 1000 "a" "t1"
    ∷ attempt 2000 "b" "t2"
    ∷ attempt 3000 "c" "t3"
    ∷ attempt 4000 "d" "t4"
    ∷ attempt 5000 "e" "t5"
    ∷ attempt 6000 "secret" "t6"
    ∷ []

login-logged_in_iff_example :
    ((login only_admin (attempt 1000 "secret" "t1") empty_world).0 ≡ logged_in "t1")
    ↔ MayEnter only_admin (attempt 1000 "secret" "t1") empty_world
login-logged_in_iff_example =
    login-logged_in_iff only_admin (attempt 1000 "secret" "t1") empty_world (omega arith)
      (omega arith) record { ips = tt; users = tt }

login_all-blacklists_none_example :
    (login_all only_admin guesses empty_world).limiter.blacklisted_ips ≡ []
login_all-blacklists_none_example =
    login_all-blacklists_none only_admin guesses Sessions.init (ground arith)
