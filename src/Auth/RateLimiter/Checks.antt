-- ===== src/Auth/RateLimiter/Checks.antt =====
-- What a check reads and what it changes.

-- Looking at an address changes no user's record.
use xianyu_manager.Dict.{lookup}
use xianyu_manager.Auth.Records.{UserRecord}
use xianyu_manager.Prelude.{Option, String, arith, none, refl, some, ℕ, ◌≡◌, ap, ◌∙◌}
use xianyu_manager.Auth.RateLimiter.{
  LoginRateLimiter, check_ip, check_ip_record, check_user, check_user_record,
}

pub user_records-check_ip :
    (now : ℕ) (ip : String) (s : LoginRateLimiter)
    → (check_ip now ip s).1.user_records ≡ s.user_records
unfolding check_ip check_ip_record
user_records-check_ip now ip s = ground arith

check_user_record_same :
    (now : ℕ) (u : String) (s t : LoginRateLimiter) (o : Option UserRecord)
    → (check_user_record now u s o).0 ≡ (check_user_record now u t o).0
unfolding check_user_record
check_user_record_same now u s t none = refl
check_user_record_same now u s t (some r) = ground arith

-- The answer about a user rests on the users' records alone.
pub check_user_same :
    (now : ℕ) (u : String) (s t : LoginRateLimiter)
    → s.user_records ≡ t.user_records
    → (check_user now u s).0 ≡ (check_user now u t).0
unfolding check_user
check_user_same now u s t e =
    check_user_record_same now u s t (lookup u s.user_records)
    ∙ ap (λ d. (check_user_record now u t (lookup u d)).0) e
