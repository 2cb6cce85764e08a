-- ===== src/Auth/RateLimiter/Quiet.antt =====
-- A limiter that has listed nobody, and in which no address can reach the threshold of the blacklist.

-- The record of an address has counted five failures at most, and is blocked from the fifth on for
-- longer than its window lasts.
use xianyu_manager.Dict.Laws.{lookup-insert}
use xianyu_manager.Auth.RateLimiter.{LoginRateLimiter}
use xianyu_manager.Auth.RateLimiter.Cleanup.{IsDistinctLimiter}
use xianyu_manager.Auth.Records.{IpRecord, fail_ip, ip_window, refresh_ip}
use xianyu_manager.Dict.{Dict, insert, lookup}
use xianyu_manager.Prelude.{
  ◌+◌, ◌<◌, ◌==◌, Bool-cases, Option, String, [], arith, inl, inr, none, refl, some, subst, sym, ℕ,
  ◌∙◌, ◌≡◌, ◌≤◌, ◌⊎◌,
}

pub record IsShort (now : ℕ) (r : IpRecord) : Type 0 where
  pub few : r.total_failures ≤ 5
  pub same : r.total_failures ≤ r.attempts
  pub past : r.first_attempt ≤ now
  pub held : 5 ≤ r.total_failures → r.first_attempt + ip_window < r.blocked_until

abbrev pub AreShort : ℕ → Dict IpRecord → Type 0
AreShort now d = (ip : String) (r : IpRecord) → lookup ip d ≡ some r → IsShort now r

pub record IsQuiet (now : ℕ) (s : LoginRateLimiter) : Type 0 where
  pub short : AreShort now s.ip_records
  pub none_listed : s.blacklisted_ips ≡ []
  pub distinct : IsDistinctLimiter s

-- A record that is still blocked or within its window.
abbrev pub IsSettled : ℕ → Option IpRecord → Type 0
IsSettled now none = Unit
IsSettled now (some r) = (now < r.blocked_until) ⊎ (now ≤ r.first_attempt + ip_window)

-- A record that is not blocked, and within its window.
abbrev pub IsOpen : ℕ → Option IpRecord → Type 0
IsOpen now none = Unit
IsOpen now (some r) = (r.blocked_until ≤ now) × (now ≤ r.first_attempt + ip_window)

pub fail_ip-IsShort :
    (now : ℕ) (o : Option IpRecord)
    → ((r : IpRecord) → o ≡ some r → IsShort now r)
    → IsOpen now o
    → IsShort now (fail_ip now o) × IsSettled now (some (fail_ip now o))
fail_ip-IsShort now none short open_ = (
  record { few = ground arith; same = ground arith; past = ground arith; held = λ h. ground arith },
  ground arith,
)
fail_ip-IsShort now (some r) short open_ =
    let h : IsShort now r = short r refl in
    (
      record {
        few = ground (arith, h.few, h.same, h.past, h.held);
        same = ground (arith, h.few, h.same, h.past, h.held);
        past = ground (arith, h.few, h.same, h.past, h.held);
        held = λ five. ground (arith, h.few, h.same, h.past, h.held);
      },
      ground (arith, h.few, h.same, h.past, h.held),
    )

abbrev IsShortOption : ℕ → Option IpRecord → Type 0
IsShortOption now none = Unit
IsShortOption now (some r) = IsShort now r

-- A block that is over is cleared, and the counts stay.
pub refresh_ip-IsShort :
    (now : ℕ) (r : IpRecord)
    → IsShort now r
    → r.blocked_until ≤ now
    → IsSettled now (some r)
    → IsShort now (refresh_ip now r) × IsOpen now (some (refresh_ip now r))
refresh_ip-IsShort now r h over settled = (
  record {
    few = ground (arith, h.few, h.same, h.past, h.held);
    same = ground (arith, h.few, h.same, h.past, h.held);
    past = ground (arith, h.few, h.same, h.past, h.held);
    held = λ five. ground (arith, h.few, h.same, h.past, h.held);
  },
  ground (arith, h.few, h.same, h.past, h.held),
)

pub insert-AreShort :
    (now : ℕ) (ip : String) (r : IpRecord) (d : Dict IpRecord)
    → AreShort now d
    → IsShort now r
    → AreShort now (insert ip r d)
insert-AreShort now ip r d short h k x e = elim (Bool-cases (ip == k)) [
  | inl same ↦
      let p : lookup k (insert ip r d) ≡ some r = rw (lookup-insert ip k r d, same) refl in
      subst (IsShortOption now) (sym p ∙ e) h
  | inr other ↦
      let p : lookup k (insert ip r d) ≡ lookup k d = rw (lookup-insert ip k r d, other) refl in
      short k x (sym p ∙ e)
]
