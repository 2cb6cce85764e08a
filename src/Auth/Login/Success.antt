-- ===== src/Auth/Login/Success.antt =====
-- When a login succeeds, and what it leaves.
use xianyu_manager.Auth.RateLimiter.Checks.{check_user_same, user_records-check_ip}
use xianyu_manager.Auth.RateLimiter.Cleanup.{IsDistinctLimiter, cleanup_expired-invisible}
use xianyu_manager.Auth.Sessions.Lifetime.{create_session_some}
use xianyu_manager.Auth.Sessions.{create_session}
use xianyu_manager.Dict.{contains}
use xianyu_manager.Auth.RateLimiter.{LoginRateLimiter, check_ip, check_user}
use xianyu_manager.Auth.Login.{
  Attempt, World, check_credentials, check_lock, reject, succeed, logged_in, session_seconds, login,
}
use xianyu_manager.Prelude.{
  ◌==◌, Bool, Option, String, arith, false, if◌then◌else◌, some, true, ◌↔◌, ◌≡◌, ◌≢◌, ◌≤◌, refl,
}
use xianyu_manager.Auth.RateLimiter
use xianyu_manager.Auth.Sessions

-- The lock that the handler reads for the user; it reads none for an empty name.
abbrev pub is_locked : Attempt → World → Bool
is_locked a w =
    if a.username == ""
    then false
    else (RateLimiter.check_user a.check_user_at a.username w.limiter).0.refused

abbrev pub is_blocked : Attempt → World → Bool
is_blocked a w = (RateLimiter.check_ip a.check_ip_at a.client_ip w.limiter).0.refused

-- What the handler has to find to let the user in.
pub record MayEnter (verify : String → String → Option Bool) (a : Attempt) (w : World)
    : Type 0 where
  pub verified : verify a.username a.password ≡ some true
  pub open_address : is_blocked a w ≡ false
  pub open_user : is_locked a w ≡ false
  pub new_token : contains a.token w.sessions.sessions ≡ false

module _ (verify : String → String → Option Bool) (a : Attempt) where
  succeed_iff :
      (w : World)
      → ((succeed a w).0 ≡ logged_in a.token) ↔ (contains a.token w.sessions.sessions ≡ false)
  unfolding succeed
  succeed_iff w =
      ground (arith, create_session_some a.wall_clock a.token session_seconds w.sessions)

  reject_never : (w : World) → (reject a w).0 ≢ logged_in a.token
  unfolding reject
  reject_never w e = cc

  credentials_iff :
      (w : World)
      → ((check_credentials verify a w).0 ≡ logged_in a.token) ↔ (
          (verify a.username a.password ≡ some true)
          × (contains a.token w.sessions.sessions ≡ false))
  unfolding check_credentials
  credentials_iff w = ground (arith, succeed_iff w, reject_never w)

  check_lock_iff :
      (w : World)
      → ((check_lock verify a w).0 ≡ logged_in a.token) ↔ (
          (verify a.username a.password ≡ some true)
          × (contains a.token w.sessions.sessions ≡ false)
          × (is_locked a w ≡ false))
  unfolding check_lock
  check_lock_iff w =
      let w' : World = record w {
        limiter = (RateLimiter.check_user a.check_user_at a.username w.limiter).1;
      } in
      ground (arith, credentials_iff w, credentials_iff w')

-- A login answers with the token exactly if the credentials are verified, neither the address nor
-- the user is refused by the limiter as it stood before the login, and the token is not in use.
-- The clock does not go back between the clean-up and the checks.
pub login-logged_in_iff :
    (verify : String → String → Option Bool) (a : Attempt) (w : World)
    → a.cleanup_at ≤ a.check_ip_at
    → a.cleanup_at ≤ a.check_user_at
    → IsDistinctLimiter w.limiter
    → ((login verify a w).0 ≡ logged_in a.token) ↔ MayEnter verify a w
unfolding login
login-logged_in_iff verify a w le le' h =
    let cleaned = (RateLimiter.cleanup_expired a.cleanup_at w.limiter).1 in
    let checked = (RateLimiter.check_ip a.check_ip_at a.client_ip cleaned).1 in
    ground (
      arith,
      check_lock_iff verify a (record w { limiter = checked }),
      user_records-check_ip a.check_ip_at a.client_ip cleaned,
      check_user_same a.check_user_at a.username checked cleaned,
      cleanup_expired-invisible a.cleanup_at a.check_ip_at a.client_ip a.username w.limiter le h,
      cleanup_expired-invisible a.cleanup_at a.check_user_at a.client_ip a.username w.limiter le' h,
    )

succeed-valid :
    (a : Attempt) (w : World)
    → contains a.token w.sessions.sessions ≡ false
    → (succeed a w).1.sessions
      ≡ (Sessions.create_session a.wall_clock a.token session_seconds w.sessions).1
unfolding succeed
succeed-valid a w new = refl
