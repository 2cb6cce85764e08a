-- ===== src/Auth/RateLimiter/Failures.antt =====
-- Sequences of failed logins, and how they add up on the record of one address.
-- One failed login: when, from where, for whom.
use xianyu_manager.Auth.RateLimiter.{LoginRateLimiter, record_failure}
use xianyu_manager.Auth.Records.{IpRecord, fail_ip, ip_block, ip_window}
use xianyu_manager.Prelude.{
  ◌+◌, ◌<◌, ◌==◌, List, String, [], arith, if◌then◌else◌, some, ℕ, ◌∷◌, ◌≡◌, ◌≤◌, ◌⊎◌, none,
}

pub record Failure : Type 0 where
  pub time : ℕ
  pub ip : String
  pub username : String

unfoldable pub fail_all : List Failure → LoginRateLimiter → LoginRateLimiter
fail_all [] s = s
fail_all (f ∷ fs) s = fail_all fs (record_failure f.time f.ip f.username s)

abbrev pub failures_of : String → List Failure → ℕ
failures_of ip [] = 0
failures_of ip (f ∷ fs) = (if f.ip == ip then 1 else 0) + failures_of ip fs

-- Failures whose times do not go back, from `before` to `last`.
abbrev pub FailuresInOrder : ℕ → List Failure → ℕ → Type 0
FailuresInOrder before [] last = before ≤ last
FailuresInOrder before (f ∷ fs) last = (before ≤ f.time) × FailuresInOrder f.time fs last

pub FailuresInOrder-le :
    (before last : ℕ) (fs : List Failure) → FailuresInOrder before fs last → before ≤ last
FailuresInOrder-le before last [] h = h
FailuresInOrder-le before last (f ∷ fs) h = omega (arith, FailuresInOrder-le f.time last fs h.1)

-- The record of an address that has failed `n` times since `start`.
pub record IsCounted (start now n : ℕ) (r : IpRecord) : Type 0 where
  pub counted : r.attempts ≡ n
  pub began : start ≤ r.first_attempt
  pub not_later : r.first_attempt ≤ now
  pub blocked : 5 ≤ n → (20 ≤ r.total_failures) ⊎ (start + ip_block ≤ r.blocked_until)

pub fail_ip-IsCounted :
    (start before now n : ℕ) (r : IpRecord)
    → 0 < start
    → before ≤ now
    → now ≤ start + ip_window
    → IsCounted start before n r
    → IsCounted start now (n + 1) (fail_ip now (some r))
fail_ip-IsCounted start before now n r pos le near c = record {
  counted = ground (arith, c.counted, c.began);
  began = ground (arith, c.counted, c.began);
  not_later = ground (arith, c.began, c.not_later);
  blocked = λ five. ground (arith, c.counted, c.began, c.not_later);
}

pub fail_ip_first : (start now : ℕ) → start ≤ now → IsCounted start now 1 (fail_ip now none)
fail_ip_first start now le = record {
  counted = ground arith;
  began = ground arith;
  not_later = ground arith;
  blocked = λ five. absurd (omega arith);
}
