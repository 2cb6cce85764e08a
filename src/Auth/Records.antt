-- ===== src/Auth/Records.antt =====
-- app/auth/rate_limiter.py: the limits, the two kinds of records, and one record's changes.
-- A time is a number of milliseconds of the monotonic clock; 0 is "not set", as in the source.
use xianyu_manager.Dict.{mem}
use xianyu_manager.Prelude.{
  ◌&&◌, ◌*◌, ◌+◌, ◌-◌, ◌/◌, ◌==ℕ◌, Bool, List, Option, String, false, if◌then◌else◌, leb, ltb, max,
  min, none, not, some, ◌||◌, ℕ,
}

abbrev pub second : ℕ
second = 1000

abbrev pub ip_max_attempts : ℕ
ip_max_attempts = 5

abbrev pub ip_window : ℕ
ip_window = 300 * second

abbrev pub ip_block : ℕ
ip_block = 1800 * second

abbrev pub user_max_attempts : ℕ
user_max_attempts = 10

abbrev pub user_window : ℕ
user_window = 600 * second

abbrev pub user_lock : ℕ
user_lock = 3600 * second

abbrev pub auto_blacklist_threshold : ℕ
auto_blacklist_threshold = 20

abbrev pub response_delay_base : ℕ
response_delay_base = 1000

abbrev pub response_delay_multiplier : ℕ
response_delay_multiplier = 500

abbrev pub max_response_delay : ℕ
max_response_delay = 10000

pub record IpRecord : Type 0 where
  pub attempts : ℕ
  pub first_attempt : ℕ
  pub blocked_until : ℕ
  pub total_failures : ℕ

pub record UserRecord : Type 0 where
  pub attempts : ℕ
  pub first_attempt : ℕ
  pub locked_until : ℕ

-- `max(0, ceil(deadline - now))`, in seconds.
unfoldable pub remaining_seconds : ℕ → ℕ → ℕ
remaining_seconds deadline now = (deadline - now + (second - 1)) / second

abbrev pub reset_ip_window_if_needed : ℕ → IpRecord → IpRecord
reset_ip_window_if_needed now r =
    if ltb 0 r.first_attempt && ltb (r.first_attempt + ip_window) now
    then record r { attempts = 0; first_attempt = 0 }
    else r

abbrev pub reset_user_window_if_needed : ℕ → UserRecord → UserRecord
reset_user_window_if_needed now r =
    if ltb 0 r.first_attempt && ltb (r.first_attempt + user_window) now
    then record r { attempts = 0; first_attempt = 0 }
    else r

-- A record whose block is over: the block is cleared, and the window if it is over too.
abbrev pub refresh_ip : ℕ → IpRecord → IpRecord
refresh_ip now r = reset_ip_window_if_needed now (record r { blocked_until = 0 })

abbrev pub refresh_user : ℕ → UserRecord → UserRecord
refresh_user now r = reset_user_window_if_needed now (record r { locked_until = 0 })

-- The record that `record_failure` counts on: new, or refreshed unless it is blocked.
abbrev pub open_ip : ℕ → Option IpRecord → IpRecord
open_ip now none = record {
  attempts = 0;
  first_attempt = now;
  blocked_until = 0;
  total_failures = 0;
}
open_ip now (some r) = if leb r.blocked_until now then refresh_ip now r else r

abbrev pub open_user : ℕ → Option UserRecord → UserRecord
open_user now none = record { attempts = 0; first_attempt = now; locked_until = 0 }
open_user now (some r) = if leb r.locked_until now then refresh_user now r else r

-- One more failure on the record.
abbrev pub count_ip : ℕ → IpRecord → IpRecord
count_ip now r = record r {
  first_attempt = if r.first_attempt ==ℕ 0 then now else r.first_attempt;
  attempts = r.attempts + 1;
  total_failures = r.total_failures + 1;
}

abbrev pub count_user : ℕ → UserRecord → UserRecord
count_user now r = record r {
  first_attempt = if r.first_attempt ==ℕ 0 then now else r.first_attempt;
  attempts = r.attempts + 1;
}

abbrev pub block_ip : ℕ → IpRecord → IpRecord
block_ip now r =
    if leb auto_blacklist_threshold r.total_failures
    then r
    else if leb ip_max_attempts r.attempts
    then record r { blocked_until = now + ip_block }
    else r

abbrev pub lock_user : ℕ → UserRecord → UserRecord
lock_user now r =
    if leb user_max_attempts r.attempts then record r { locked_until = now + user_lock } else r

abbrev pub fail_ip : ℕ → Option IpRecord → IpRecord
fail_ip now o = block_ip now (count_ip now (open_ip now o))

abbrev pub fail_user : ℕ → Option UserRecord → UserRecord
fail_user now o = lock_user now (count_user now (open_user now o))

-- The delay in milliseconds for a number of failed attempts.
abbrev pub delay_of : ℕ → ℕ
delay_of attempts =
    if leb attempts 0
    then 0
    else min max_response_delay
        (response_delay_base + max 0 (attempts - 1) * response_delay_multiplier)

abbrev pub ip_expired : ℕ → List String → String → IpRecord → Bool
ip_expired now blacklisted ip r =
    if not (mem ip blacklisted) && ltb now r.blocked_until
    then false
    else r.first_attempt ==ℕ 0 || ltb (r.first_attempt + ip_window) now

abbrev pub user_expired : ℕ → String → UserRecord → Bool
user_expired now username r =
    if ltb now r.locked_until
    then false
    else r.first_attempt ==ℕ 0 || ltb (r.first_attempt + user_window) now
