-- ===== src/Auth/RateLimiter/Lockout.antt =====
-- The address that fails too often is refused.
use xianyu_manager.Dict.Laws.{lookup-insert}
use xianyu_manager.Dict.{lookup, mem}
use xianyu_manager.Auth.RateLimiter.{
  LoginRateLimiter, add, check_ip, check_ip_record, record_failure,
}
use xianyu_manager.Auth.Records.{IpRecord, fail_ip, ip_block, ip_window}
use xianyu_manager.Auth.RateLimiter.Failures.{
  Failure, FailuresInOrder, FailuresInOrder-le, IsCounted, fail_all, fail_ip-IsCounted,
  fail_ip_first, failures_of,
}
use xianyu_manager.Prelude.{
  ◌+◌, ◌<◌, ◌==◌, Bool-cases, List, Option, String, [], arith, eq_iff, eq_refl, false,
  if◌then◌else◌, inl, inr, le→leb, lt→ltb, none, refl, some, subst, sym, true, ℕ, ◌∙◌, ◌∷◌, ◌≡◌,
  ◌≤◌,
}

add_zero : (n : ℕ) → n ≡ n + 0
add_zero n = omega arith

add_one_more : (n k : ℕ) → n + 1 + k ≡ n + (1 + k)
add_one_more n k = omega arith

add_none_more : (n k : ℕ) → n + k ≡ n + (0 + k)
add_none_more n k = omega arith

-- What the limiter knows of an address that has failed `n` times since `start`.
abbrev Tracks : ℕ → ℕ → ℕ → Option IpRecord → Type 0
Tracks start now n none = n ≡ 0
Tracks start now n (some r) = IsCounted start now n r

record IsTracking (ip : String) (start now n : ℕ) (s : LoginRateLimiter) : Type 0 where
  tracks : Tracks start now n (lookup ip s.ip_records)
  refused :
      (r : IpRecord)
      → lookup ip s.ip_records ≡ some r
      → 20 ≤ r.total_failures
      → mem ip s.blacklisted_ips ≡ true

abbrev total_of : Option IpRecord → ℕ
total_of none = 0
total_of (some r) = r.total_failures

same_record :
    (o : Option IpRecord) (r r' : IpRecord)
    → o ≡ some r
    → o ≡ some r'
    → 20 ≤ r'.total_failures
    → 20 ≤ r.total_failures
same_record o r r' e e' h = subst (λ (o' : Option IpRecord). 20 ≤ total_of o') (sym e' ∙ e) h

mem-add : (j k : String) (l : List String) → mem k (add j l) ≡ (if j == k then true else mem k l)
unfolding mem
mem-add j k l = ground (arith, eq_iff j k)

-- The record of the failing address, and those of the others.
lookup-record_failure :
    (now : ℕ) (ip k u : String) (s : LoginRateLimiter)
    → lookup k (record_failure now ip u s).ip_records
      ≡ (if ip == k then some (fail_ip now (lookup ip s.ip_records)) else lookup k s.ip_records)
unfolding record_failure
lookup-record_failure now ip k u s =
    lookup-insert ip k (fail_ip now (lookup ip s.ip_records)) s.ip_records

mem-record_failure :
    (now : ℕ) (ip k u : String) (s : LoginRateLimiter)
    → mem k s.blacklisted_ips ≡ true
    → mem k (record_failure now ip u s).blacklisted_ips ≡ true
unfolding record_failure
mem-record_failure now ip k u s h = ground (arith, mem-add ip k s.blacklisted_ips)

mem-record_failure_self :
    (now : ℕ) (ip u : String) (s : LoginRateLimiter)
    → 20 ≤ (fail_ip now (lookup ip s.ip_records)).total_failures
    → mem ip (record_failure now ip u s).blacklisted_ips ≡ true
unfolding record_failure
mem-record_failure_self now ip u s h =
    rw (le→leb 20 (fail_ip now (lookup ip s.ip_records)).total_failures h)
      (rw (mem-add ip ip s.blacklisted_ips, eq_refl ip))

module _ (ip : String) (start before now n : ℕ) (u : String) (s : LoginRateLimiter) where
  fail-Tracks :
      (o : Option IpRecord)
      → 0 < start
      → start ≤ now
      → before ≤ now
      → now ≤ start + ip_window
      → Tracks start before n o
      → IsCounted start now (n + 1) (fail_ip now o)
  fail-Tracks none pos lo le near t = rw t (fail_ip_first start now lo)
  fail-Tracks (some r) pos lo le near c = fail_ip-IsCounted start before now n r pos le near c

  record_failure-IsTracking :
      0 < start
      → start ≤ now
      → before ≤ now
      → now ≤ start + ip_window
      → IsTracking ip start before n s
      → IsTracking ip start now (n + 1) (record_failure now ip u s)
  record_failure-IsTracking pos lo le near t =
      let r = fail_ip now (lookup ip s.ip_records) in
      let e : lookup ip (record_failure now ip u s).ip_records ≡ some r =
        rw (lookup-record_failure now ip ip u s, eq_refl ip) in
      record {
        tracks = rw e (fail-Tracks (lookup ip s.ip_records) pos lo le near t.tracks);
        refused = λ r' e' h.
            mem-record_failure_self now ip u s
              (same_record (lookup ip (record_failure now ip u s).ip_records) r r' e e' h);
      }

Tracks-later :
    (start before now n : ℕ) (o : Option IpRecord)
    → before ≤ now
    → Tracks start before n o
    → Tracks start now n o
Tracks-later start before now n none le t = t
Tracks-later start before now n (some r) le c = record {
  counted = c.counted;
  began = c.began;
  not_later = omega (arith, c.not_later);
  blocked = c.blocked;
}

-- A failure of another address leaves what is known of this one.
other_failure-IsTracking :
    (ip ip' : String) (start before now n : ℕ) (u : String) (s : LoginRateLimiter)
    → (ip' == ip) ≡ false
    → before ≤ now
    → IsTracking ip start before n s
    → IsTracking ip start now n (record_failure now ip' u s)
other_failure-IsTracking ip ip' start before now n u s ne le t =
    let e : lookup ip (record_failure now ip' u s).ip_records ≡ lookup ip s.ip_records =
      rw (lookup-record_failure now ip' ip u s, ne) refl in
    record {
      tracks = rw e (Tracks-later start before now n (lookup ip s.ip_records) le t.tracks);
      refused = λ r f h. mem-record_failure now ip' ip u s (t.refused r (sym e ∙ f) h);
    }

fail_all-IsTracking :
    (ip : String) (start before last n : ℕ) (fs : List Failure) (s : LoginRateLimiter)
    → 0 < start
    → start ≤ before
    → FailuresInOrder before fs last
    → last ≤ start + ip_window
    → IsTracking ip start before n s
    → IsTracking ip start last (n + failures_of ip fs) (fail_all fs s)
unfolding fail_all
fail_all-IsTracking ip start before last n [] s pos lo order near t = record {
  tracks =
      subst (λ k. Tracks start last k (lookup ip s.ip_records)) (add_zero n)
        (Tracks-later start before last n (lookup ip s.ip_records) order t.tracks);
  refused = t.refused;
}
fail_all-IsTracking ip start before last n (f ∷ fs) s pos lo order near t =
    let s' = record_failure f.time f.ip f.username s in
    let in_window : f.time ≤ start + ip_window =
      omega (arith, FailuresInOrder-le f.time last fs order.1) in
    elim (Bool-cases (f.ip == ip)) [
      | inl same ↦
          subst (λ k. IsTracking ip start last k (fail_all fs s'))
            (rw same (add_one_more n (failures_of ip fs)))
            (fail_all-IsTracking ip start f.time last (n + 1) fs s' pos (omega arith) order.1 near (
              subst (λ x. IsTracking ip start f.time (n + 1) (record_failure f.time x f.username s))
                (sym ((eq_iff f.ip ip).0 same))
                (record_failure-IsTracking ip start before f.time n f.username s pos (omega arith)
                  order.0 in_window t)))
      | inr other ↦
          subst (λ k. IsTracking ip start last k (fail_all fs s'))
            (rw other (add_none_more n (failures_of ip fs)))
            (fail_all-IsTracking ip start f.time last n fs s' pos (omega arith) order.1 near
              (other_failure-IsTracking ip f.ip start before f.time n f.username s other order.0 t))
    ]

zero_add : (n : ℕ) → 0 + n ≡ n
zero_add n = omega arith

record_refused :
    (ip : String) (start last n now : ℕ) (s : LoginRateLimiter) (o : Option IpRecord)
    → lookup ip s.ip_records ≡ o
    → 5 ≤ n
    → now < start + ip_block
    → mem ip s.blacklisted_ips ≡ false
    → IsTracking ip start last n s
    → (check_ip_record now ip s o).0.refused ≡ true
unfolding check_ip_record
record_refused ip start last n now s none e five soon open_ t =
    absurd (omega (arith, subst (Tracks start last n) e t.tracks))
record_refused ip start last n now s (some r) e five soon open_ t =
    let c : IsCounted start last n r = subst (Tracks start last n) e t.tracks in
    elim (c.blocked five) [
      | inl listed ↦ absurd (cc (t.refused r e listed))
      | inr blocked ↦ rw (lt→ltb now r.blocked_until (omega arith)) refl
    ]

IsTracking-refused :
    (ip : String) (start last n now : ℕ) (s : LoginRateLimiter)
    → 5 ≤ n
    → now < start + ip_block
    → IsTracking ip start last n s
    → (check_ip now ip s).0.refused ≡ true
unfolding check_ip
IsTracking-refused ip start last n now s five soon t =
    elim (Bool-cases (mem ip s.blacklisted_ips)) [
      | inl listed ↦ rw listed refl
      | inr unlisted ↦
          rw unlisted (
            record_refused ip start last n now s (lookup ip s.ip_records) refl five soon unlisted t)
    ]

-- An address without a record that fails five times or more within five minutes is refused at every
-- check after these failures that comes less than half an hour after `start`, the first time
-- allowed for a failure, whichever failures of other addresses come in between, if the clock is
-- past 0 and does not go back.
pub check_ip-after_failures :
    (ip : String) (start last now : ℕ) (fs : List Failure) (s : LoginRateLimiter)
    → 0 < start
    → lookup ip s.ip_records ≡ none
    → FailuresInOrder start fs last
    → last ≤ start + ip_window
    → 5 ≤ failures_of ip fs
    → now < start + ip_block
    → (check_ip now ip (fail_all fs s)).0.refused ≡ true
check_ip-after_failures ip start last now fs s pos new order near five soon =
    IsTracking-refused ip start last (failures_of ip fs) now (fail_all fs s) five soon (
      subst (λ k. IsTracking ip start last k (fail_all fs s)) (zero_add (failures_of ip fs))
        (fail_all-IsTracking ip start start last 0 fs s pos (omega arith) order near
          record { tracks = rw new refl; refused = λ r e h. absurd (ground arith) }))
