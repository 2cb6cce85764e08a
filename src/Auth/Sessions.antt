-- ===== src/Auth/Sessions.antt =====
-- app/auth/sessions.py: the store of admin sessions. Times are milliseconds of the wall clock; every
-- method holds the store's lock, and reads the clock once for each expiry that it tests.
pub mod Lifetime
mod Examples
use xianyu_manager.Dict.{Dict, contains, erase, erase_all, insert, is_some, keys_where, lookup}
use xianyu_manager.Prelude.{
  ◌*◌, ◌+◌, Bool, Option, String, [], if◌then◌else◌, length, ltb, none, some, ℕ,
}

pub record SessionEntry : Type 0 where
  pub token : String
  pub created_at : ℕ
  pub expires_at : ℕ

pub record SessionStore : Type 0 where
  pub sessions : Dict SessionEntry

abbrev pub init : SessionStore
init = record { sessions = [] }

abbrev pub is_expired : ℕ → SessionEntry → Bool
is_expired now e = ltb e.expires_at now

-- `none` is the `ValueError` of a token that exists already.
pub create_session : ℕ → String → ℕ → SessionStore → Option SessionEntry × SessionStore
create_session now token ttl_seconds s =
    if contains token s.sessions
    then (none, s)
    else let entry : SessionEntry = record {
      token = token;
      created_at = now;
      expires_at = now + ttl_seconds * 1000;
    } in
      (some entry, record s { sessions = insert token entry s.sessions })

-- The look at one session that `validate_session` and `get_session` share.
find_live : ℕ → String → SessionStore → Option SessionEntry → Option SessionEntry × SessionStore
find_live now token s none = (none, s)
find_live now token s (some e) =
    if is_expired now e then (none, record s { sessions = erase token s.sessions }) else (some e, s)

pub get_session : ℕ → String → SessionStore → Option SessionEntry × SessionStore
unfolding find_live
get_session now token s = find_live now token s (lookup token s.sessions)

pub validate_session : ℕ → String → SessionStore → Bool × SessionStore
unfolding find_live
validate_session now token s =
    let (found, s') = find_live now token s (lookup token s.sessions) in (is_some found, s')

pub revoke_session : String → SessionStore → SessionStore
revoke_session token s = record s { sessions = erase token s.sessions }

-- The number of sessions removed, and the store without them.
pub cleanup_expired : ℕ → SessionStore → ℕ × SessionStore
cleanup_expired now s =
    let expired_tokens = keys_where (λ _ e. is_expired now e) s.sessions in
    (length expired_tokens, record s { sessions = erase_all expired_tokens s.sessions })

pub session_count : SessionStore → ℕ
session_count s = length s.sessions
