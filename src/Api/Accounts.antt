-- ===== src/Api/Accounts.antt =====
-- app/api/routers/accounts.py and app/api/routers/account_compat.py: the requests that change the table of
-- accounts and the registry of running accounts; Running has those of app/api/routers/runtime.py. The bounds of the requests' schemas come before the handlers; the times of rows are left out.
pub mod Running
pub mod Logins
pub mod Sync
mod Examples
use xianyu_manager.Text.{strip}
use xianyu_manager.Api.{Answer, answered, bad_gateway, conflict, not_found, refused, unprocessable}
use xianyu_manager.Db.{AccountRow, Storage, set_registry_cookie, update_account}
use xianyu_manager.Dict.{Dict, contains, erase, insert, is_some, lookup}
use xianyu_manager.Runtime.AccountRegistry.{
  AccountEntry, AccountRegistry, disable_account, enable_account, get_account,
}
use xianyu_manager.Runtime.AccountRegistry as Registry
use xianyu_manager.Prelude.{
  Bool, Option, String, [], false, if◌then◌else◌, leb, none, not, some, true, ℕ, ◌==◌, ◌||◌, ◌∷◌,
}
use Prim.Native.String as Chars
use Prim.Native.String.{◌++◌ as ◌⊕◌}

pub record AccountCreateRequest : Type 0 where
  pub account_id : String
  pub cookie_str : String
  pub username : String
  pub password : String
  pub notes : String
  pub enabled : Bool
  pub show_browser : Bool

pub record AccountResponse : Type 0 where
  pub account_id : String
  pub username : String
  pub notes : String
  pub enabled : Bool
  pub show_browser : Bool
  pub has_cookie : Bool

unfoldable pub map_account : String → AccountRow → AccountResponse
map_account account_id r = record {
  account_id = account_id;
  username = r.username;
  notes = r.notes;
  enabled = r.enabled;
  show_browser = r.show_browser;
  has_cookie = not (r.cookie_str == "");
}

pub record AccountCompatDetailResponse : Type 0 where
  pub id : String
  pub value : String
  pub username : String
  pub enabled : Bool
  pub show_browser : Bool
  pub has_cookie : Bool
  pub cookie_status : String
  pub has_password : Bool
  pub remark : String
  pub pause_duration : ℕ

unfoldable pub cookie_status_of : String → String
cookie_status_of cookie_value = if strip cookie_value == "" then "missing" else "available"

unfoldable pub map_account_detail : String → AccountRow → AccountCompatDetailResponse
unfolding cookie_status_of
map_account_detail account_id r = record {
  id = account_id;
  value = r.cookie_str;
  username = r.username;
  enabled = r.enabled;
  show_browser = r.show_browser;
  has_cookie = not (r.cookie_str == "");
  cookie_status = cookie_status_of r.cookie_str;
  has_password = not (r.password == "");
  remark = r.notes;
  pause_duration = r.pause_duration;
}

pub record RefreshCookieResponse : Type 0 where
  pub cookie_id : String
  pub message : String
  pub cookie_status : String
  pub value : String

-- What `refresh_token` does: an exception with its text, or the cookies.
pub data RefreshResult : Type 0 where
  fails_with : String → RefreshResult
  gives : Dict String → RefreshResult

abbrev pub no_account {ℓ} : {A : Type ℓ} → Answer A
no_account = refused (not_found "Account not found")

abbrev pub row_of : AccountCreateRequest → AccountRow
row_of q = record {
  cookie_str = q.cookie_str;
  username = q.username;
  password = q.password;
  notes = q.notes;
  enabled = q.enabled;
  show_browser = q.show_browser;
  pause_duration = 10;
}

-- A second row of an account breaks the table's `UNIQUE`.
unfoldable pub add_account : AccountCreateRequest → Storage → Answer AccountResponse × Storage
unfolding map_account
add_account q st =
    if q.account_id == ""
    then (refused (unprocessable "String should have at least 1 character"), st)
    else if contains q.account_id st.rows
    then (refused (conflict ("Account '" ⊕ q.account_id ⊕ "' already exists")), st)
    else (
      answered (map_account q.account_id (row_of q)),
      record st { rows = insert q.account_id (row_of q) st.rows },
    )

unfoldable pub remove_account : String → Storage → Answer {0} Unit × Storage
remove_account account_id st =
    if contains account_id st.rows
    then (answered tt, record st { rows = erase account_id st.rows })
    else (no_account, st)

-- The row of an account after an `UPDATE`, which the answer tells, and what the request does to the
-- registry then.
unfoldable pub update_row :
    {A : Type 0}
    → (AccountRow → A)
    → String
    → (AccountRow → AccountRow)
    → (AccountRegistry → AccountRegistry)
    → Storage
    → Answer A × Storage
unfolding update_account
update_row response account_id f g st = elim (lookup account_id st.rows) [
  | none ↦ (no_account, st)
  | some r ↦ (
    answered (response (f r)),
    record { rows = update_account account_id f st.rows; registry = g st.registry },
  )
]

unfoldable pub set_account_enabled : String → Bool → AccountRegistry → AccountRegistry
set_account_enabled account_id enabled registry =
    if enabled
    then (enable_account account_id registry).1
    else (disable_account account_id registry).1

abbrev pub with_enabled : Bool → AccountRow → AccountRow
with_enabled enabled r = record r { enabled = enabled }

unfoldable pub update_account_status :
    String → Bool → Storage → Answer AccountCompatDetailResponse × Storage
unfolding update_row set_account_enabled map_account_detail
update_account_status account_id enabled st =
    update_row (map_account_detail account_id) account_id (with_enabled enabled)
      (set_account_enabled account_id enabled) st

unfoldable pub update_account_remark :
    String → String → Storage → Answer AccountCompatDetailResponse × Storage
unfolding update_row map_account_detail
update_account_remark account_id remark st =
    if leb (Chars.len remark) 100
    then update_row (map_account_detail account_id) account_id (λ r. record r { notes = remark })
        (λ registry. registry) st
    else (refused (unprocessable "String should have at most 100 characters"), st)

unfoldable pub update_account_pause_duration :
    String → ℕ → Storage → Answer AccountCompatDetailResponse × Storage
unfolding update_row map_account_detail
update_account_pause_duration account_id pause_duration st =
    if leb pause_duration 60
    then update_row (map_account_detail account_id) account_id
        (λ r. record r { pause_duration = pause_duration }) (λ registry. registry) st
    else (refused (unprocessable "Input should be less than or equal to 60"), st)

-- `"; ".join(… if name)`
unfoldable pub format_cookie_string : Dict String → String
format_cookie_string [] = ""
format_cookie_string ((name, value) ∷ d) =
    let rest = format_cookie_string d in
    if name == ""
    then rest
    else if rest == ""
    then name ⊕ "=" ⊕ value
    else name ⊕ "=" ⊕ value ⊕ "; " ⊕ rest

-- `refresh_token` is a parameter. The row is looked up in the storage before it, and changed in the
-- storage that other coroutines have left after it.
unfoldable pub refresh_account_cookie :
    (String → RefreshResult)
    → String
    → String
    → Storage
    → Storage
    → Answer RefreshCookieResponse × Storage
unfolding update_row format_cookie_string set_registry_cookie cookie_status_of
refresh_account_cookie refresh_token cookie_id qr_cookies before st =
    if cookie_id == "" || qr_cookies == ""
    then (refused (unprocessable "String should have at least 1 character"), st)
    else if not (contains cookie_id before.rows)
    then (no_account, st)
    else elim (refresh_token qr_cookies) [
      | fails_with exc ↦ (refused (bad_gateway ("Cookie refresh failed: " ⊕ exc)), st)
      | gives cookies ↦
          let formatted = format_cookie_string cookies in
          let cookie_value = if formatted == "" then qr_cookies else formatted in
          update_row
            (λ r. record {
              cookie_id = cookie_id;
              message = "cookie_refreshed";
              cookie_status = cookie_status_of cookie_value;
              value = r.cookie_str;
            })
            cookie_id (λ r. record r { cookie_str = cookie_value })
            (set_registry_cookie cookie_id cookie_value) st
    ]
