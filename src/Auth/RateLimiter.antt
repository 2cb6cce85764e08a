-- ===== src/Auth/RateLimiter.antt =====
-- app/auth/rate_limiter.py: `LoginRateLimiter`. Every method holds the limiter's lock, so calls form
-- a sequence, each with its reading of the monotonic clock.
pub mod Failures
pub mod Lockout
pub mod Cleanup
pub mod Checks
pub mod Quiet
pub mod QuietSteps
mod Examples
use xianyu_manager.Auth.Records.{
  IpRecord, UserRecord, auto_blacklist_threshold, delay_of, fail_ip, fail_user, ip_expired,
  max_response_delay, refresh_ip, refresh_user, remaining_seconds, user_expired,
}
use xianyu_manager.Dict.{Dict, erase, erase_all, insert, keys_where, lookup, mem}
use xianyu_manager.Prelude.{
  ◌+◌, Bool, List, Option, String, [], false, if◌then◌else◌, leb, length, ltb, none, some, true, ℕ,
  ◌∷◌,
}

pub record LoginRateLimiter : Type 0 where
  pub ip_records : Dict IpRecord
  pub user_records : Dict UserRecord
  pub blacklisted_ips : List String

-- The triple that a check returns: refused or not, the reason, the whole seconds left.
pub record Status : Type 0 where
  pub refused : Bool
  pub reason : String
  pub remaining : ℕ

abbrev pub init : LoginRateLimiter
init = record { ip_records = []; user_records = []; blacklisted_ips = [] }

abbrev pub free : Status
free = record { refused = false; reason = ""; remaining = 0 }

pub check_ip_record : ℕ → String → LoginRateLimiter → Option IpRecord → Status × LoginRateLimiter
check_ip_record now ip s none = (free, s)
check_ip_record now ip s (some r) =
    if ltb now r.blocked_until
    then (
      record {
        refused = true;
        reason = "Too many failed login attempts from this IP address.";
        remaining = remaining_seconds r.blocked_until now;
      },
      s,
    )
    else (free, record s { ip_records = insert ip (refresh_ip now r) s.ip_records })

pub check_ip : ℕ → String → LoginRateLimiter → Status × LoginRateLimiter
unfolding check_ip_record
check_ip now ip s =
    if mem ip s.blacklisted_ips
    then (
      record {
        refused = true;
        reason = "This IP address is permanently blacklisted.";
        remaining = 0;
      },
      s,
    )
    else check_ip_record now ip s (lookup ip s.ip_records)

pub check_user_record :
    ℕ → String → LoginRateLimiter → Option UserRecord → Status × LoginRateLimiter
check_user_record now username s none = (free, s)
check_user_record now username s (some r) =
    if ltb now r.locked_until
    then (
      record {
        refused = true;
        reason = "Too many failed login attempts for this account.";
        remaining = remaining_seconds r.locked_until now;
      },
      s,
    )
    else (free, record s { user_records = insert username (refresh_user now r) s.user_records })

pub check_user : ℕ → String → LoginRateLimiter → Status × LoginRateLimiter
unfolding check_user_record
check_user now username s = check_user_record now username s (lookup username s.user_records)

-- `self._blacklisted_ips.add(ip)`
abbrev pub add : String → List String → List String
add ip ips = if mem ip ips then ips else ip ∷ ips

pub record_failure : ℕ → String → String → LoginRateLimiter → LoginRateLimiter
record_failure now ip username s =
    let ip_record = fail_ip now (lookup ip s.ip_records) in
    record {
      ip_records = insert ip ip_record s.ip_records;
      user_records =
          insert username (fail_user now (lookup username s.user_records)) s.user_records;
      blacklisted_ips =
          if leb auto_blacklist_threshold ip_record.total_failures
          then add ip s.blacklisted_ips
          else s.blacklisted_ips;
    }

pub record_success : String → String → LoginRateLimiter → LoginRateLimiter
record_success ip username s = record s {
  ip_records = erase ip s.ip_records;
  user_records = erase username s.user_records;
}

pub delay_of_record : ℕ → String → LoginRateLimiter → Option IpRecord → ℕ × LoginRateLimiter
delay_of_record now ip s none = (0, s)
delay_of_record now ip s (some r) =
    let r' = if leb r.blocked_until now then refresh_ip now r else r in
    (delay_of r'.attempts, record s { ip_records = insert ip r' s.ip_records })

pub get_response_delay : ℕ → String → LoginRateLimiter → ℕ × LoginRateLimiter
unfolding delay_of_record
get_response_delay now ip s =
    if mem ip s.blacklisted_ips
    then (max_response_delay, s)
    else delay_of_record now ip s (lookup ip s.ip_records)

pub is_ip_blacklisted : String → LoginRateLimiter → Bool
is_ip_blacklisted ip s = mem ip s.blacklisted_ips

-- The number of records removed, and the limiter without them.
pub cleanup_expired : ℕ → LoginRateLimiter → ℕ × LoginRateLimiter
cleanup_expired now s =
    let expired_ips = keys_where (ip_expired now s.blacklisted_ips) s.ip_records in
    let expired_users = keys_where (user_expired now) s.user_records in
    (
      length expired_ips + length expired_users,
      record s {
        ip_records = erase_all expired_ips s.ip_records;
        user_records = erase_all expired_users s.user_records;
      },
    )
