-- ===== src/Auth/Login/Verified.antt =====
-- No login succeeds without verified credentials.
use xianyu_manager.Auth.RateLimiter.{check_ip, check_user}
use xianyu_manager.Prelude.{Bool, Option, String, arith, false, none, refl, some, true, ◌≡◌}
use xianyu_manager.Auth.Login.{
  Attempt, World, answer, check_credentials, check_lock, logged_in, login, reject,
}
use xianyu_manager.Auth.RateLimiter

module _ (a : Attempt) (token : String) where
  answer-verified :
      (w : World) (v : Option Bool) → (answer a w v).0 ≡ logged_in token → v ≡ some true
  unfolding answer reject
  answer-verified w none e = absurd (cc)
  answer-verified w (some true) e = refl
  answer-verified w (some false) e = absurd (cc)

  module _ (verify : String → String → Option Bool) where
    credentials-verified :
        (w : World)
        → (check_credentials verify a w).0 ≡ logged_in token
        → verify a.username a.password ≡ some true
    unfolding check_credentials
    credentials-verified w e = answer-verified w (verify a.username a.password) e

    lock-verified :
        (w : World)
        → (check_lock verify a w).0 ≡ logged_in token
        → verify a.username a.password ≡ some true
    unfolding check_lock
    lock-verified w e =
        let w' : World = record w {
          limiter = (RateLimiter.check_user a.check_user_at a.username w.limiter).1;
        } in
        ground (arith, credentials-verified w, credentials-verified w')

    pub login-verified :
        (w : World)
        → (login verify a w).0 ≡ logged_in token
        → verify a.username a.password ≡ some true
    unfolding login
    login-verified w e =
        let cleaned = (RateLimiter.cleanup_expired a.cleanup_at w.limiter).1 in
        let checked = (RateLimiter.check_ip a.check_ip_at a.client_ip cleaned).1 in
        ground (arith, lock-verified (record w { limiter = checked }))
