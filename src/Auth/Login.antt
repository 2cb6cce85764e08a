-- ===== src/Auth/Login.antt =====
-- The login and logout handlers of app/api/routers/auth.py, over the limiter and the session store.
-- The check of the credentials is a parameter of the handler here, as it is a function of its own in
-- the source; `none` is an exception that it raises.
pub mod Success
pub mod Blacklist
pub mod Verified
mod Examples
use xianyu_manager.Dict.{is_some}
use xianyu_manager.Auth.Sessions.{SessionStore, create_session, revoke_session}
use xianyu_manager.Auth.RateLimiter.{
  LoginRateLimiter, check_ip, check_user, get_response_delay, record_failure, record_success,
}
use xianyu_manager.Prelude.{
  ◌==◌, Bool, List, Option, String, [], if◌then◌else◌, none, some, ℕ, ◌∷◌, false, true,
}
use xianyu_manager.Auth.RateLimiter
use xianyu_manager.Auth.Sessions

-- The process-wide singletons that the handler uses.
pub record World : Type 0 where
  pub limiter : LoginRateLimiter
  pub sessions : SessionStore

-- The request, the readings of the clocks in the order of the calls, and the random token.
pub record Attempt : Type 0 where
  pub client_ip : String
  pub username : String
  pub password : String
  pub cleanup_at : ℕ
  pub check_ip_at : ℕ
  pub check_user_at : ℕ
  pub failure_at : ℕ
  pub delay_at : ℕ
  pub wall_clock : ℕ
  pub token : String

-- 429 with its reason, for the address or the user; 401 after a delay; 200 with the token in the
-- cookie; 500 for an exception.
pub data Response : Type 0 where
  ip_blocked : String → Response
  user_locked : String → Response
  invalid : ℕ → Response
  logged_in : String → Response
  server_error : Response

abbrev pub session_seconds : ℕ
session_seconds = 86400

-- `limiter.record_success`, then the session; a token that exists raises.
pub succeed : Attempt → World → Response × World
succeed a w =
    let limiter = RateLimiter.record_success a.client_ip a.username w.limiter in
    let (created, sessions) =
      Sessions.create_session a.wall_clock a.token session_seconds w.sessions in
    (
      if is_some created then logged_in a.token else server_error,
      record { limiter = limiter; sessions = sessions },
    )

-- `limiter.record_failure`, then the delay.
pub reject : Attempt → World → Response × World
reject a w =
    let (delay, limiter) =
      RateLimiter.get_response_delay a.delay_at a.client_ip
        (RateLimiter.record_failure a.failure_at a.client_ip a.username w.limiter) in
    (invalid delay, record w { limiter = limiter })

-- What follows the check of the credentials, by its result.
pub answer : Attempt → World → Option Bool → Response × World
answer a w none = (server_error, w)
answer a w (some true) = succeed a w
answer a w (some false) = reject a w

module _ (verify : String → String → Option Bool) where
  pub check_credentials : Attempt → World → Response × World
  unfolding answer
  check_credentials a w = answer a w (verify a.username a.password)

  pub check_lock : Attempt → World → Response × World
  check_lock a w =
      if a.username == ""
      then check_credentials a w
      else let (lock, limiter) = RateLimiter.check_user a.check_user_at a.username w.limiter in
        if lock.refused
        then (
          user_locked lock.reason,
          record w {
            limiter = RateLimiter.record_failure a.failure_at a.client_ip a.username limiter;
          },
        )
        else check_credentials a (record w { limiter = limiter })

  pub login : Attempt → World → Response × World
  login a w =
      let cleaned = (RateLimiter.cleanup_expired a.cleanup_at w.limiter).1 in
      let (block, limiter) = RateLimiter.check_ip a.check_ip_at a.client_ip cleaned in
      if block.refused
      then (ip_blocked block.reason, record w { limiter = limiter })
      else check_lock a (record w { limiter = limiter })

  pub login_all : List Attempt → World → World
  login_all [] w = w
  login_all (a ∷ as') w = login_all as' (login a w).1

pub logout : String → World → World
logout token w = record w { sessions = Sessions.revoke_session token w.sessions }
