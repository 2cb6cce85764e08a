-- ===== src/Auth/RateLimiter/Cleanup.antt =====
-- Dropping the expired records is invisible to the checks that follow.

-- What a check of an address answers, from its record.
use xianyu_manager.Dict.Keys.{lookup-erase_where, unless}
use xianyu_manager.Dict.{lookup, mem}
use xianyu_manager.Auth.RateLimiter.{
  LoginRateLimiter, check_ip, check_ip_record, check_user_record, cleanup_expired, check_user,
}
use xianyu_manager.Dict.Sizes.{IsDistinct, erase_all-IsDistinct}
use xianyu_manager.Auth.Records.{IpRecord, UserRecord, ip_expired, user_expired}
use xianyu_manager.Prelude.{
  Bool-cases, List, Option, String, arith, false, inl, inr, none, refl, some, ℕ, ◌≡◌, ◌≤◌,
}

check_ip_record-unless :
    (before now : ℕ) (ip : String) (s : LoginRateLimiter) (bl : List String) (o : Option IpRecord)
    → before ≤ now
    → mem ip bl ≡ false
    → (check_ip_record now ip (cleanup_expired before s).1 (unless (ip_expired before bl) ip o)).0
      ≡ (check_ip_record now ip s o).0
unfolding check_ip_record
check_ip_record-unless before now ip s bl none le open_ = refl
check_ip_record-unless before now ip s bl (some r) le open_ =
    elim (Bool-cases (ip_expired before bl ip r)) [
      | inl gone ↦ rw gone (ground arith)
      | inr kept ↦ rw kept (ground arith)
    ]

check_user_record-unless :
    (before now : ℕ) (u : String) (s : LoginRateLimiter) (o : Option UserRecord)
    → before ≤ now
    → (check_user_record now u (cleanup_expired before s).1 (unless (user_expired before) u o)).0
      ≡ (check_user_record now u s o).0
unfolding check_user_record
check_user_record-unless before now u s none le = refl
check_user_record-unless before now u s (some r) le = elim (Bool-cases (user_expired before u r)) [
  | inl gone ↦ rw gone (ground arith)
  | inr kept ↦ rw kept (ground arith)
]

pub lookup-cleanup_ip :
    (now : ℕ) (ip : String) (s : LoginRateLimiter)
    → IsDistinct s.ip_records
    → lookup ip (cleanup_expired now s).1.ip_records
      ≡ unless (ip_expired now s.blacklisted_ips) ip (lookup ip s.ip_records)
unfolding cleanup_expired
lookup-cleanup_ip now ip s h =
    lookup-erase_where (ip_expired now s.blacklisted_ips) ip s.ip_records h

pub lookup-cleanup_user :
    (now : ℕ) (u : String) (s : LoginRateLimiter)
    → IsDistinct s.user_records
    → lookup u (cleanup_expired now s).1.user_records
      ≡ unless (user_expired now) u (lookup u s.user_records)
unfolding cleanup_expired
lookup-cleanup_user now u s h = lookup-erase_where (user_expired now) u s.user_records h

-- Python's dictionaries hold a key once.
pub record IsDistinctLimiter (s : LoginRateLimiter) : Type 0 where
  pub ips : IsDistinct s.ip_records
  pub users : IsDistinct s.user_records

pub blacklisted_ips-cleanup :
    (now : ℕ) (s : LoginRateLimiter) → (cleanup_expired now s).1.blacklisted_ips ≡ s.blacklisted_ips
unfolding cleanup_expired
blacklisted_ips-cleanup now s = refl

check_ip-cleanup :
    (before now : ℕ) (ip : String) (s : LoginRateLimiter)
    → before ≤ now
    → IsDistinct s.ip_records
    → (check_ip now ip (cleanup_expired before s).1).0 ≡ (check_ip now ip s).0
unfolding check_ip
check_ip-cleanup before now ip s le h = elim (Bool-cases (mem ip s.blacklisted_ips)) [
  | inl listed ↦ rw (blacklisted_ips-cleanup before s, listed) refl
  | inr unlisted ↦
      rw (blacklisted_ips-cleanup before s, unlisted, lookup-cleanup_ip before ip s h)
        (check_ip_record-unless before now ip s s.blacklisted_ips (lookup ip s.ip_records) le
          unlisted)
]

check_user-cleanup :
    (before now : ℕ) (u : String) (s : LoginRateLimiter)
    → before ≤ now
    → IsDistinct s.user_records
    → (check_user now u (cleanup_expired before s).1).0 ≡ (check_user now u s).0
unfolding check_user
check_user-cleanup before now u s le h =
    rw (lookup-cleanup_user before u s h)
      (check_user_record-unless before now u s (lookup u s.user_records) le)

-- Dropping the expired records changes no answer of a check that follows at the same time or later:
-- neither that of an address nor that of a user name.
pub cleanup_expired-invisible :
    (before now : ℕ) (ip u : String) (s : LoginRateLimiter)
    → before ≤ now
    → IsDistinctLimiter s
    → ((check_ip now ip (cleanup_expired before s).1).0 ≡ (check_ip now ip s).0)
      × ((check_user now u (cleanup_expired before s).1).0 ≡ (check_user now u s).0)
cleanup_expired-invisible before now ip u s le h =
    (check_ip-cleanup before now ip s le h.ips, check_user-cleanup before now u s le h.users)

pub cleanup_expired-IsDistinctLimiter :
    (now : ℕ) (s : LoginRateLimiter)
    → IsDistinctLimiter s
    → IsDistinctLimiter (cleanup_expired now s).1
unfolding cleanup_expired
cleanup_expired-IsDistinctLimiter now s h = record {
  ips = erase_all-IsDistinct _ s.ip_records h.ips;
  users = erase_all-IsDistinct _ s.user_records h.users;
}
