-- ===== src/Auth/RateLimiter/Examples.antt =====
-- Runs of the limiter, and the theorems at inputs that meet their hypotheses.
use xianyu_manager.Auth.Records.{remaining_seconds}
use xianyu_manager.Dict.{insert, keys_where, lookup, mem}
use xianyu_manager.Auth.RateLimiter.Cleanup.{cleanup_expired-invisible}
use xianyu_manager.Auth.RateLimiter.Lockout.{check_ip-after_failures}
use xianyu_manager.Auth.RateLimiter.{
  LoginRateLimiter, check_ip, check_user, cleanup_expired, get_response_delay, init, record_failure,
}
use xianyu_manager.Prelude.{List, [], arith, false, refl, true, ◌∷◌, ◌≡◌}
use xianyu_manager.Auth.RateLimiter.Failures.{Failure, fail_all}

abbrev five_failures : List Failure
five_failures =
    record { time = 1000; ip = "1.2.3.4"; username = "root" }
    ∷ record { time = 2000; ip = "1.2.3.4"; username = "admin" }
    ∷ record { time = 2500; ip = "5.6.7.8"; username = "admin" }
    ∷ record { time = 3000; ip = "1.2.3.4"; username = "admin" }
    ∷ record { time = 4000; ip = "1.2.3.4"; username = "admin" }
    ∷ record { time = 5000; ip = "1.2.3.4"; username = "admin" }
    ∷ []

-- Half an hour and a second to wait, and the delay that goes with five attempts.
five_failures_block :
    ((check_ip 6000 "1.2.3.4" (fail_all five_failures init)).0.remaining ≡ 1799)
    × ((get_response_delay 6000 "1.2.3.4" (fail_all five_failures init)).0 ≡ 3000)
    × ((check_ip 6000 "5.6.7.8" (fail_all five_failures init)).0.refused ≡ false)
unfolding fail_all record_failure check_ip get_response_delay remaining_seconds lookup insert mem
five_failures_block = (refl, refl, refl)

check_ip-after_failures_example :
    (check_ip 1800999 "1.2.3.4" (fail_all five_failures init)).0.refused ≡ true
unfolding lookup
check_ip-after_failures_example =
    check_ip-after_failures "1.2.3.4" 1000 5000 1800999 five_failures init (omega arith) refl
      (omega arith) (omega arith) (omega arith) (omega arith)

abbrev stale : LoginRateLimiter
stale = record {
  ip_records =
      (
        "1.2.3.4",
        record { attempts = 2; first_attempt = 1000; blocked_until = 0; total_failures = 2 },
      )
      ∷ [];
  user_records =
      ("admin", record { attempts = 10; first_attempt = 1000; locked_until = 4000000 }) ∷ [];
  blacklisted_ips = [];
}

stale_removed : (cleanup_expired 400000 stale).0 ≡ 1
unfolding cleanup_expired keys_where mem
stale_removed = refl

cleanup_expired-invisible_example :
    ((check_ip 500000 "1.2.3.4" (cleanup_expired 400000 stale).1).0
      ≡ (check_ip 500000 "1.2.3.4" stale).0)
    × ((check_user 500000 "admin" (cleanup_expired 400000 stale).1).0
        ≡ (check_user 500000 "admin" stale).0)
unfolding lookup
cleanup_expired-invisible_example =
    cleanup_expired-invisible 400000 500000 "1.2.3.4" "admin" stale (omega arith)
      record { ips = (refl, tt); users = (refl, tt) }
