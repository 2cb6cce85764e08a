-- ===== src/Api/Accounts/Sync/Updates.antt =====
-- app/api/routers: updates of rows keep the accounts in step.
use xianyu_manager.Api.Accounts.{
  RefreshCookieResponse, RefreshResult, cookie_status_of, fails_with, gives, map_account_detail,
  no_account, refresh_account_cookie, set_account_enabled, update_account_pause_duration,
  update_account_remark, update_account_status, update_row, with_enabled, format_cookie_string,
}
use xianyu_manager.Api.Accounts.Sync.{
  IsSyncedAfter, either-IsSynced, enabled-agree, IsSynced, agree, changed-IsSynced,
  row_changed-IsSynced, same,
}
use xianyu_manager.Api.{Answer, answered, bad_gateway, refused, unprocessable}
use xianyu_manager.Db.{AccountRow, Storage, set_registry_cookie, update_account}
use xianyu_manager.Services.LoginService.Verdict.{persist_login_to_db}
use xianyu_manager.Services.LoginService.{PasswordLoginSession}
use xianyu_manager.Runtime.AccountRegistry.{
  AccountEntry, AccountRegistry, disable_account, enable_account,
}
use xianyu_manager.Dict.{lookup, contains}
use xianyu_manager.Prelude.{
  Bool, Option, String, false, if◌then◌else◌, none, not, some, true, ℕ, ◌==◌, ◌&&◌, ◌≡◌, refl,
  arith, eq_refl, ◌∙◌, ap, leb, ◌||◌,
}
use Prim.Native.String as Chars
use Prim.Native.String.{◌++◌ as ◌⊕◌}

-- An `UPDATE` that finds no row leaves all as it is.
update_row-IsSynced :
    {A : Type 0} (response : AccountRow → A) (id : String) (f : AccountRow → AccountRow)
    (g : AccountRegistry → AccountRegistry) (st : Storage)
    → IsSynced st
    → IsSynced (record { rows = update_account id f st.rows; registry = g st.registry })
    → IsSyncedAfter (update_row response id f g st)
unfolding update_row
update_row-IsSynced {A} response id f g st h k = by_lookup (lookup id st.rows)
  where
    by_lookup :
        (o : Option AccountRow)
        → IsSyncedAfter (elim o as (λ _. Answer A × Storage) [
          | none ↦ (no_account, st)
          | some r ↦ (
            answered (response (f r)),
            record { rows = update_account id f st.rows; registry = g st.registry },
          )
        ])
    by_lookup none = h
    by_lookup (some r) = k

-- The same cookies in the row and in the entry.
cookie-agree :
    (c : String) (r : AccountRow) (e : AccountEntry)
    → agree (some r) (some e) ≡ true
    → (same r.enabled e.enabled && c == c) ≡ true
cookie-agree c r e h = ground (arith, eq_refl c)

pub set_status-IsSynced :
    (id : String) (b : Bool) (st : Storage)
    → IsSynced st
    → IsSynced (update_account_status id b st).1
unfolding update_account_status set_account_enabled enable_account disable_account
set_status-IsSynced id b st h =
    update_row-IsSynced (map_account_detail id) id (with_enabled b) (set_account_enabled id b) st h
      (by_enabled b)
  where
    by_enabled :
        (c : Bool)
        → IsSynced (record {
          rows = update_account id (with_enabled c) st.rows;
          registry = set_account_enabled id c st.registry;
        })
    by_enabled true =
        changed-IsSynced id (with_enabled true) (λ e. record e { enabled = true }) st
          (enabled-agree true) h
    by_enabled false =
        changed-IsSynced id (with_enabled false) (λ e. record e { enabled = false }) st
          (enabled-agree false) h

pub remark-IsSynced :
    (id remark : String) (st : Storage)
    → IsSynced st
    → IsSynced (update_account_remark id remark st).1
unfolding update_account_remark
remark-IsSynced id remark st h =
    either-IsSynced (leb (Chars.len remark) 100)
      (update_row (map_account_detail id) id (λ r. record r { notes = remark })
        (λ registry. registry) st)
      (refused (unprocessable "String should have at most 100 characters"), st)
      (update_row-IsSynced (map_account_detail id) id (λ r. record r { notes = remark })
        (λ registry. registry) st h
        (row_changed-IsSynced id (λ r. record r { notes = remark }) st (λ r. (refl, refl)) h))
      h

pub pause-IsSynced :
    (id : String) (n : ℕ) (st : Storage)
    → IsSynced st
    → IsSynced (update_account_pause_duration id n st).1
unfolding update_account_pause_duration
pause-IsSynced id n st h =
    either-IsSynced (leb n 60)
      (update_row (map_account_detail id) id (λ r. record r { pause_duration = n })
        (λ registry. registry) st)
      (refused (unprocessable "Input should be less than or equal to 60"), st)
      (update_row-IsSynced (map_account_detail id) id (λ r. record r { pause_duration = n })
        (λ registry. registry) st h
        (row_changed-IsSynced id (λ r. record r { pause_duration = n }) st (λ r. (refl, refl)) h))
      h

-- New cookies, and other fields that the registry does not have.
cookies-IsSynced :
    (id c : String) (f : AccountRow → AccountRow) (st : Storage)
    → ((r : AccountRow) → ((f r).enabled ≡ r.enabled) × ((f r).cookie_str ≡ c))
    → IsSynced st
    → IsSynced (record {
      rows = update_account id f st.rows;
      registry = set_registry_cookie id c st.registry;
    })
unfolding set_registry_cookie
cookies-IsSynced id c f st k h =
    changed-IsSynced id f (λ e. record e { cookie_str = c }) st
      (λ r e g.
        ap (λ b. same b e.enabled && (f r).cookie_str == c) (k r).0
        ∙ ap (λ d. same r.enabled e.enabled && d == c) (k r).1
        ∙ cookie-agree c r e g)
      h

pub refresh-IsSynced :
    (refresh_token : String → RefreshResult) (id cookies : String) (before st : Storage)
    → IsSynced st
    → IsSyncedAfter (refresh_account_cookie refresh_token id cookies before st)
unfolding refresh_account_cookie
refresh-IsSynced refresh_token id cookies before st h =
    either-IsSynced (id == "" || cookies == "")
      (refused (unprocessable "String should have at least 1 character"), st) _ h
      (either-IsSynced (not (contains id before.rows)) (no_account, st) _ h
        (by_result (refresh_token cookies)))
  where
    told : String → AccountRow → RefreshCookieResponse
    told c r = record {
      cookie_id = id;
      message = "cookie_refreshed";
      cookie_status = cookie_status_of c;
      value = r.cookie_str;
    }

    by_result :
        (o : RefreshResult)
        → IsSyncedAfter (elim o as (λ _. Answer RefreshCookieResponse × Storage) [
          | fails_with exc ↦ (refused (bad_gateway ("Cookie refresh failed: " ⊕ exc)), st)
          | gives d ↦
              let formatted = format_cookie_string d in
              let c = if formatted == "" then cookies else formatted in
              update_row
                (told c)
                id
                (λ r. record r { cookie_str = c })
                (set_registry_cookie id c)
                st
        ])
    by_result (fails_with exc) = h
    by_result (gives d) =
        let formatted = format_cookie_string d in
        let c = if formatted == "" then cookies else formatted in
        update_row-IsSynced (told c) id (λ r. record r { cookie_str = c })
          (set_registry_cookie id c) st h
          (cookies-IsSynced id c (λ r. record r { cookie_str = c }) st (λ r. (refl, refl)) h)

pub login_ends-IsSynced :
    (db_ok : Bool) (session : PasswordLoginSession) (cookies password : String) (st : Storage)
    → IsSynced st
    → IsSynced (persist_login_to_db db_ok session cookies password st)
unfolding persist_login_to_db
login_ends-IsSynced db_ok session cookies password st h =
    by_test (session.db_path == "" || not db_ok)
  where
    f : AccountRow → AccountRow
    f r = record r {
      cookie_str = cookies;
      username = session.username;
      password = password;
      show_browser = session.show_browser;
    }

    by_test :
        (b : Bool)
        → IsSynced (
            if b then st else record {
              rows = update_account session.account_id f st.rows;
              registry = set_registry_cookie session.account_id cookies st.registry;
            })
    by_test true = h
    by_test false = cookies-IsSynced session.account_id cookies f st (λ r. (refl, refl)) h
