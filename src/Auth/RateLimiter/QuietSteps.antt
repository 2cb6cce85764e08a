-- ===== src/Auth/RateLimiter/QuietSteps.antt =====
-- Each method leaves such a limiter, for the address that the clean-up and the check have let through.

-- Every record of the limiter is still blocked or within its window.
use xianyu_manager.Dict.Keys.{unless}
use xianyu_manager.Dict.Laws.{lookup-erase, lookup-insert_self}
use xianyu_manager.Dict.{insert, lookup, mem}
use xianyu_manager.Dict.Sizes.{erase-IsDistinct, insert-IsDistinct}
use xianyu_manager.Auth.RateLimiter.Cleanup.{
  blacklisted_ips-cleanup, cleanup_expired-IsDistinctLimiter, lookup-cleanup_ip,
}
use xianyu_manager.Auth.RateLimiter.{
  LoginRateLimiter, check_ip, check_ip_record, check_user, check_user_record, cleanup_expired,
  delay_of_record, get_response_delay, record_failure, record_success,
}
use xianyu_manager.Auth.RateLimiter.Quiet.{
  IsOpen, IsQuiet, IsSettled, IsShort, fail_ip-IsShort, insert-AreShort, refresh_ip-IsShort,
}
use xianyu_manager.Auth.Records.{
  IpRecord, UserRecord, fail_ip, fail_user, ip_expired, refresh_ip, refresh_user,
}
use xianyu_manager.Prelude.{
  Bool-cases, Option, String, [], ap, arith, false, inl, inr, leb, ltb, ltb→le, none, refl, some,
  subst, sym, true, ℕ, ◌∙◌, ◌≡◌, ◌≤◌,
}

abbrev pub AllSettled : LoginRateLimiter → ℕ → Type 0
AllSettled s now = (ip : String) → IsSettled now (lookup ip s.ip_records)

later-IsShort : (before now : ℕ) (r : IpRecord) → before ≤ now → IsShort before r → IsShort now r
later-IsShort before now r le h = record {
  few = h.few;
  same = h.same;
  past = omega (arith, h.past);
  held = h.held;
}

unless-IsSettled :
    (now : ℕ) (ip : String) (o : Option IpRecord) → IsSettled now (unless (ip_expired now []) ip o)
unfolding mem
unless-IsSettled now ip none = tt
unless-IsSettled now ip (some r) = elim (Bool-cases (ip_expired now [] ip r)) [
  | inl gone ↦ rw gone tt
  | inr kept ↦ rw kept (ground arith)
]

unless-some :
    (now : ℕ) (ip : String) (o : Option IpRecord) (r : IpRecord)
    → unless (ip_expired now []) ip o ≡ some r
    → o ≡ some r
unless-some now ip none r e = e
unless-some now ip (some x) r e = ground arith

pub cleanup-IsQuiet :
    (before now : ℕ) (s : LoginRateLimiter)
    → before ≤ now
    → IsQuiet before s
    → IsQuiet now (cleanup_expired now s).1 × AllSettled (cleanup_expired now s).1 now
cleanup-IsQuiet before now s le q =
    let kept : (ip : String)
        → lookup ip (cleanup_expired now s).1.ip_records
          ≡ unless (ip_expired now []) ip (lookup ip s.ip_records) =
      λ ip.
        lookup-cleanup_ip now ip s q.distinct.ips
        ∙ ap (λ bl. unless (ip_expired now bl) ip (lookup ip s.ip_records)) q.none_listed in
    (
      record {
        short = λ ip r e.
            later-IsShort before now r le
              (q.short ip r (unless-some now ip (lookup ip s.ip_records) r (sym (kept ip) ∙ e)));
        none_listed = blacklisted_ips-cleanup now s ∙ q.none_listed;
        distinct = cleanup_expired-IsDistinctLimiter now s q.distinct;
      },
      λ ip.
          subst (IsSettled now) (sym (kept ip)) (unless-IsSettled now ip (lookup ip s.ip_records)),
    )

insert_ip-IsQuiet :
    (now : ℕ) (ip : String) (r : IpRecord) (s : LoginRateLimiter)
    → IsQuiet now s
    → IsShort now r
    → IsQuiet now (record s { ip_records = insert ip r s.ip_records })
insert_ip-IsQuiet now ip r s q h = record {
  short = insert-AreShort now ip r s.ip_records q.short h;
  none_listed = q.none_listed;
  distinct = record {
    ips = insert-IsDistinct ip r s.ip_records q.distinct.ips;
    users = q.distinct.users;
  };
}

insert_user-IsQuiet :
    (now : ℕ) (u : String) (r : UserRecord) (s : LoginRateLimiter)
    → IsQuiet now s
    → IsQuiet now (record s { user_records = insert u r s.user_records })
insert_user-IsQuiet now u r s q = record {
  short = q.short;
  none_listed = q.none_listed;
  distinct = record {
    ips = q.distinct.ips;
    users = insert-IsDistinct u r s.user_records q.distinct.users;
  };
}

pub check_ip_record-IsQuiet :
    (now : ℕ) (ip : String) (s : LoginRateLimiter) (o : Option IpRecord)
    → IsQuiet now s
    → lookup ip s.ip_records ≡ o
    → IsSettled now o
    → (check_ip_record now ip s o).0.refused ≡ false
    → IsQuiet now (check_ip_record now ip s o).1
      × IsOpen now (lookup ip (check_ip_record now ip s o).1.ip_records)
unfolding check_ip_record
check_ip_record-IsQuiet now ip s none q e settled passed = (q, rw e tt)
check_ip_record-IsQuiet now ip s (some r) q e settled passed =
    elim (Bool-cases (ltb now r.blocked_until)) [
      | inl blocked ↦ absurd (ground arith)
      | inr over ↦
          let (short, open_) =
            refresh_ip-IsShort now r (q.short ip r e) (ltb→le now r.blocked_until over) settled in
          rw over (
            insert_ip-IsQuiet now ip (refresh_ip now r) s q short,
            rw (lookup-insert_self ip (refresh_ip now r) s.ip_records) open_,
          )
    ]

delay_of_record-IsQuiet :
    (now : ℕ) (ip : String) (s : LoginRateLimiter) (o : Option IpRecord)
    → IsQuiet now s
    → lookup ip s.ip_records ≡ o
    → IsSettled now o
    → IsQuiet now (delay_of_record now ip s o).1
unfolding delay_of_record
delay_of_record-IsQuiet now ip s none q e settled = q
delay_of_record-IsQuiet now ip s (some r) q e settled =
    elim (Bool-cases (leb r.blocked_until now)) [
      | inl over ↦ rw over (
          insert_ip-IsQuiet now ip (refresh_ip now r) s q
            (refresh_ip-IsShort now r (q.short ip r e) (ground arith) settled).0)
      | inr blocked ↦ rw blocked (insert_ip-IsQuiet now ip r s q (q.short ip r e))
    ]

check_user_record-IsQuiet :
    (now : ℕ) (u : String) (s : LoginRateLimiter) (o : Option UserRecord)
    → IsQuiet now s
    → IsQuiet now (check_user_record now u s o).1
      × ((check_user_record now u s o).1.ip_records ≡ s.ip_records)
unfolding check_user_record
check_user_record-IsQuiet now u s none q = (q, refl)
check_user_record-IsQuiet now u s (some r) q = elim (Bool-cases (ltb now r.locked_until)) [
  | inl locked ↦ rw locked (q, refl)
  | inr over ↦ rw over (insert_user-IsQuiet now u (refresh_user now r) s q, refl)
]

module _ (now : ℕ) (ip u : String) (s : LoginRateLimiter) (q : IsQuiet now s) where
  pub record_failure-IsQuiet :
      IsOpen now (lookup ip s.ip_records)
      → IsQuiet now (record_failure now ip u s)
        × IsSettled now (lookup ip (record_failure now ip u s).ip_records)
  unfolding record_failure
  record_failure-IsQuiet open_ =
      let o = lookup ip s.ip_records in
      let (short, settled) = fail_ip-IsShort now o (q.short ip) open_ in
      (
        record {
          short = insert-AreShort now ip (fail_ip now o) s.ip_records q.short short;
          none_listed = ground (arith, q.none_listed, short.few);
          distinct = record {
            ips = insert-IsDistinct ip (fail_ip now o) s.ip_records q.distinct.ips;
            users =
                insert-IsDistinct u (fail_user now (lookup u s.user_records)) s.user_records
                  q.distinct.users;
          };
        },
        rw (lookup-insert_self ip (fail_ip now o) s.ip_records) settled,
      )

  pub record_success-IsQuiet : IsQuiet now (record_success ip u s)
  unfolding record_success
  record_success-IsQuiet = record {
    short = λ k r e. q.short k r (ground (arith, lookup-erase ip k s.ip_records));
    none_listed = q.none_listed;
    distinct = record {
      ips = erase-IsDistinct ip s.ip_records q.distinct.ips;
      users = erase-IsDistinct u s.user_records q.distinct.users;
    };
  }

  pub check_user-IsQuiet :
      IsQuiet now (check_user now u s).1 × ((check_user now u s).1.ip_records ≡ s.ip_records)
  unfolding check_user check_user_record
  check_user-IsQuiet = check_user_record-IsQuiet now u s (lookup u s.user_records) q

  unlisted : mem ip s.blacklisted_ips ≡ false
  unfolding mem
  unlisted = rw q.none_listed refl

  pub check_ip-IsQuiet :
      IsSettled now (lookup ip s.ip_records)
      → (check_ip now ip s).0.refused ≡ false
      → IsQuiet now (check_ip now ip s).1 × IsOpen now (lookup ip (check_ip now ip s).1.ip_records)
  unfolding check_ip
  check_ip-IsQuiet settled passed = rw unlisted (
      check_ip_record-IsQuiet now ip s (lookup ip s.ip_records) q refl settled
        (rw unlisted at passed))

  pub check_ip-refused : (check_ip now ip s).0.refused ≡ true → (check_ip now ip s).1 ≡ s
  unfolding check_ip check_ip_record
  check_ip-refused refused = ground arith

  pub get_response_delay-IsQuiet :
      IsSettled now (lookup ip s.ip_records) → IsQuiet now (get_response_delay now ip s).1
  unfolding get_response_delay
  get_response_delay-IsQuiet settled =
      rw unlisted (delay_of_record-IsQuiet now ip s (lookup ip s.ip_records) q refl settled)
