-- ===== src/Auth/Login/Blacklist.antt =====
-- Whether logins ever put an address on the blacklist.
use xianyu_manager.Auth.RateLimiter.QuietSteps.{
  check_ip-IsQuiet, check_ip-refused, check_user-IsQuiet, cleanup-IsQuiet,
  get_response_delay-IsQuiet, record_failure-IsQuiet, record_success-IsQuiet,
}
use xianyu_manager.Auth.RateLimiter.Quiet.{IsOpen, IsQuiet}
use xianyu_manager.Dict.{lookup}
use xianyu_manager.Prelude.{
  Bool, List, Option, String, [], ℕ, ◌∷◌, ◌≡◌, ◌≤◌, ◌==◌, Bool-cases, false, inl, inr, none, refl,
  some, true,
}
use xianyu_manager.Auth.Login.{
  Attempt, World, check_credentials, login, login_all, reject, succeed, answer, check_lock,
}
use xianyu_manager.Auth.RateLimiter
use xianyu_manager.Auth.RateLimiter.{init, check_ip, check_user, record_failure}
use xianyu_manager.Auth.Sessions.{SessionStore}

-- All readings of the monotonic clock in one login are equal.
abbrev pub IsInstant : ℕ → Attempt → Type 0
IsInstant now a =
    (a.cleanup_at ≡ now)
    × (a.check_ip_at ≡ now)
    × (a.check_user_at ≡ now)
    × (a.failure_at ≡ now)
    × (a.delay_at ≡ now)

-- Logins at times that do not go back.
abbrev pub Instants : ℕ → List Attempt → Type 0
Instants before [] = Unit
Instants before (a ∷ as') =
    (before ≤ a.check_ip_at) × IsInstant a.check_ip_at a × Instants a.check_ip_at as'

module _ (verify : String → String → Option Bool) (now : ℕ) (a : Attempt)
    (i : IsInstant now a) where
  reject-IsQuiet :
      (w : World)
      → IsQuiet now w.limiter
      → IsOpen now (lookup a.client_ip w.limiter.ip_records)
      → IsQuiet now (reject a w).1.limiter
  unfolding reject
  reject-IsQuiet w q open_ =
      let (q', settled) = record_failure-IsQuiet now a.client_ip a.username w.limiter q open_ in
      simp (i.3, i.4)
        (get_response_delay-IsQuiet now a.client_ip a.username
          (RateLimiter.record_failure now a.client_ip a.username w.limiter) q' settled)

  answer-IsQuiet :
      (w : World)
      → IsQuiet now w.limiter
      → IsOpen now (lookup a.client_ip w.limiter.ip_records)
      → (o : Option Bool) → IsQuiet now (answer a w o).1.limiter
  unfolding answer succeed
  answer-IsQuiet w q open_ none = q
  answer-IsQuiet w q open_ (some true) =
      record_success-IsQuiet now a.client_ip a.username w.limiter q
  answer-IsQuiet w q open_ (some false) = reject-IsQuiet w q open_

  check_credentials-IsQuiet :
      (w : World)
      → IsQuiet now w.limiter
      → IsOpen now (lookup a.client_ip w.limiter.ip_records)
      → IsQuiet now (check_credentials verify a w).1.limiter
  unfolding check_credentials succeed
  check_credentials-IsQuiet w q open_ = answer-IsQuiet w q open_ (verify a.username a.password)

  check_lock-IsQuiet :
      (w : World)
      → IsQuiet now w.limiter
      → IsOpen now (lookup a.client_ip w.limiter.ip_records)
      → IsQuiet now (check_lock verify a w).1.limiter
  unfolding check_lock
  check_lock-IsQuiet w q open_ = elim (Bool-cases (a.username == "")) [
    | inl empty ↦ rw empty (check_credentials-IsQuiet w q open_)
    | inr named ↦
        let limiter = (RateLimiter.check_user now a.username w.limiter).1 in
        let (q', same) = check_user-IsQuiet now a.client_ip a.username w.limiter q in
        let open' : IsOpen now (lookup a.client_ip limiter.ip_records) = rw same open_ in
        let locked = (RateLimiter.check_user now a.username w.limiter).0.refused in
        simp (named, i.2, i.3)
          (elim (Bool-cases locked) [
            | inl yes' ↦
                rw yes' (record_failure-IsQuiet now a.client_ip a.username limiter q' open').0
            | inr no' ↦ rw no' (check_credentials-IsQuiet (record w { limiter = limiter }) q' open')
          ])
  ]

  login-IsQuiet :
      (before : ℕ) (w : World)
      → before ≤ now
      → IsQuiet before w.limiter
      → IsQuiet now (login verify a w).1.limiter
  unfolding login
  login-IsQuiet before w le q =
      let cleaned = (RateLimiter.cleanup_expired now w.limiter).1 in
      let (q', settled) = cleanup-IsQuiet before now w.limiter le q in
      let limiter = (RateLimiter.check_ip now a.client_ip cleaned).1 in
      let blocked = (RateLimiter.check_ip now a.client_ip cleaned).0.refused in
      simp (i.0, i.1)
        (elim (Bool-cases blocked) [
          | inl yes' ↦ rw yes' (rw (check_ip-refused now a.client_ip a.username cleaned q' yes') q')
          | inr no' ↦
              let (q'', open_) =
                check_ip-IsQuiet now a.client_ip a.username cleaned q' (settled a.client_ip) no' in
              rw no' (check_lock-IsQuiet (record w { limiter = limiter }) q'' open_)
        ])

login_all-IsQuiet :
    (verify : String → String → Option Bool) (before : ℕ) (attempts : List Attempt) (w : World)
    → Instants before attempts
    → IsQuiet before w.limiter
    → (login_all verify attempts w).limiter.blacklisted_ips ≡ []
unfolding login_all
login_all-IsQuiet verify before [] w i q = q.none_listed
login_all-IsQuiet verify before (a ∷ rest) w i q =
    login_all-IsQuiet verify a.check_ip_at rest (login verify a w).1 i.2
      (login-IsQuiet verify a.check_ip_at a i.1 before w i.0 q)

-- Starting from an empty limiter, no sequence of logins ever puts an address on the blacklist, if
-- each login reads one time from a clock that does not go back: every record is gone or reset before
-- it has counted more than five of the twenty failures.
pub login_all-blacklists_none :
    (verify : String → String → Option Bool) (attempts : List Attempt) (sessions : SessionStore)
    → Instants 0 attempts
    → (login_all verify attempts
        (record { limiter = init; sessions = sessions })).limiter.blacklisted_ips
      ≡ []
unfolding lookup
login_all-blacklists_none verify attempts sessions i =
    login_all-IsQuiet verify 0 attempts (record { limiter = init; sessions = sessions }) i
      record {
        short = λ ip r e. absurd (cc);
        none_listed = refl;
        distinct = record { ips = tt; users = tt };
      }
