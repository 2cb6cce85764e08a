-- ===== src/Api/Accounts/Sync.antt =====
-- app/api/routers: the table of accounts and the registry of running accounts agree.
mod Updates
mod Starts
pub mod Keeping
use xianyu_manager.Api.{Answer}
use xianyu_manager.Api.Accounts.{
  RefreshResult, AccountCreateRequest, add_account, refresh_account_cookie, remove_account,
  update_account_pause_duration, update_account_remark, update_account_status, with_enabled,
}
use xianyu_manager.Api.Accounts.Running.{start_account, stop_account}
use xianyu_manager.Db.{AccountRow, Storage, update_account}
use xianyu_manager.Services.LoginService.Verdict.{persist_login_to_db}
use xianyu_manager.Services.LoginService.{PasswordLoginSession}
use xianyu_manager.Runtime.AccountRegistry.Histories.{change-get_account, modified}
use xianyu_manager.Runtime.AccountRegistry.{AccountEntry, change, get_account}
use xianyu_manager.Dict.{Dict, insert, lookup}
use xianyu_manager.Dict.Laws.{lookup-insert}
use xianyu_manager.Prelude.{
  Bool, List, Option, String, [], false, if◌then◌else◌, none, not, some, true, ℕ, ◌==◌, ◌&&◌, ◌∷◌,
  ◌≡◌, refl, arith, eq_iff, ◌∙◌, ap,
}

abbrev pub same : Bool → Bool → Bool
same true b = b
same false b = not b

-- A running account has a row, with the same cookies, and is enabled as it is.
abbrev pub agree : Option AccountRow → Option AccountEntry → Bool
agree _ none = true
agree none (some e) = false
agree (some r) (some e) = same r.enabled e.enabled && r.cookie_str == e.cookie_str

abbrev pub IsSynced : Storage → Type 0
IsSynced st = (id : String) → agree (lookup id st.rows) (get_account id st.registry) ≡ true

abbrev pub mapped : (AccountRow → AccountRow) → Option AccountRow → Option AccountRow
mapped f none = none
mapped f (some r) = some (f r)

pub update_account-lookup :
    (k j : String) (f : AccountRow → AccountRow) (rows : Dict AccountRow)
    → lookup j (update_account k f rows)
      ≡ (if k == j then mapped f (lookup j rows) else lookup j rows)
unfolding update_account
update_account-lookup k j f rows = by_lookup (lookup k rows) refl
  where
    by_lookup :
        (o : Option AccountRow)
        → lookup k rows ≡ o
        → lookup j (elim o as (λ _. Dict AccountRow) [ none ↦ rows | some r ↦ insert k (f r) rows ])
          ≡ (if k == j then mapped f (lookup j rows) else lookup j rows)
    by_lookup none h = ground (arith, eq_iff k j)
    by_lookup (some r) h = ground (arith, eq_iff k j, lookup-insert k j (f r) rows)

-- A change of the row and of the entry of one account that keeps the two in step.
agree-changed :
    (b : Bool) (f : AccountRow → AccountRow) (g : AccountEntry → AccountEntry)
    (p : Option AccountRow) (o : Option AccountEntry)
    → ((r : AccountRow) (e : AccountEntry)
        → agree (some r) (some e) ≡ true
        → agree (some (f r)) (some (g e)) ≡ true)
    → agree p o ≡ true
    → agree (if b then mapped f p else p) (if b then modified g o else o) ≡ true
agree-changed false f g p o k h = h
agree-changed true f g none none k h = refl
agree-changed true f g (some r) none k h = refl
agree-changed true f g none (some e) k h = h
agree-changed true f g (some r) (some e) k h = k r e h

pub changed-IsSynced :
    (id : String) (f : AccountRow → AccountRow) (g : AccountEntry → AccountEntry) (st : Storage)
    → ((r : AccountRow) (e : AccountEntry)
        → agree (some r) (some e) ≡ true
        → agree (some (f r)) (some (g e)) ≡ true)
    → IsSynced st
    → IsSynced
        (record { rows = update_account id f st.rows; registry = (change id g st.registry).1 })
changed-IsSynced id f g st k h j =
    ap (λ p. agree p (get_account j (change id g st.registry).1))
      (update_account-lookup id j f st.rows)
    ∙ ap (agree (if id == j then mapped f (lookup j st.rows) else lookup j st.rows))
        (change-get_account id j g st.registry)
    ∙ agree-changed (id == j) f g (lookup j st.rows) (get_account j st.registry) k (h j)

-- A change of the row alone, of fields that the registry does not have.
pub row_changed-IsSynced :
    (id : String) (f : AccountRow → AccountRow) (st : Storage)
    → ((r : AccountRow) → ((f r).enabled ≡ r.enabled) × ((f r).cookie_str ≡ r.cookie_str))
    → IsSynced st
    → IsSynced (record st { rows = update_account id f st.rows })
row_changed-IsSynced id f st k h j =
    ap (λ p. agree p (get_account j st.registry)) (update_account-lookup id j f st.rows)
    ∙ by_entry (id == j) (lookup j st.rows) (get_account j st.registry) (h j)
  where
    by_entry :
        (b : Bool) (p : Option AccountRow) (o : Option AccountEntry)
        → agree p o ≡ true
        → agree (if b then mapped f p else p) o ≡ true
    by_entry false p o g = g
    by_entry true p none g = ground arith
    by_entry true none (some e) g = g
    by_entry true (some r) (some e) g =
        ap (λ b. same b e.enabled && (f r).cookie_str == e.cookie_str) (k r).0
        ∙ ap (λ c. same r.enabled e.enabled && c == e.cookie_str) (k r).1
        ∙ g

-- The same `enabled` in the row and in the entry, with the cookies of before.
pub enabled-agree :
    (b : Bool) (r : AccountRow) (e : AccountEntry)
    → agree (some r) (some e) ≡ true
    → agree (some (with_enabled b r)) (some (record e { enabled = b })) ≡ true
enabled-agree true r e h = ground arith
enabled-agree false r e h = ground arith

abbrev pub IsSyncedAfter : {A : Type 0} → Answer A × Storage → Type 0
IsSyncedAfter x = IsSynced x.1

-- A test of a request leads to one of two ends.
pub either-IsSynced :
    {A : Type 0} (b : Bool) (x y : Answer A × Storage)
    → IsSyncedAfter x
    → IsSyncedAfter y
    → IsSyncedAfter (if b then x else y)
either-IsSynced true x y h k = h
either-IsSynced false x y h k = k

pub data Request : Type 0 where
  add : AccountCreateRequest → Request
  remove : String → Request
  set_status : String → Bool → Request
  set_remark : String → String → Request
  set_pause : String → ℕ → Request
  refresh : (String → RefreshResult) → String → String → Storage → Request
  start stop : String → Request
  login_ends : Bool → PasswordLoginSession → String → String → Request

-- What a request, or the end of a login in the background, leaves.
unfoldable pub handle : Request → Storage → Storage
handle (add q) st = (add_account q st).1
handle (remove id) st = (remove_account id st).1
handle (set_status id enabled) st = (update_account_status id enabled st).1
handle (set_remark id remark) st = (update_account_remark id remark st).1
handle (set_pause id n) st = (update_account_pause_duration id n st).1
handle (refresh refresh_token id cookies before) st =
    (refresh_account_cookie refresh_token id cookies before st).1
handle (start id) st = (start_account id st).1
handle (stop id) st = (stop_account id st).1
handle (login_ends db_ok session cookies password) st =
    persist_login_to_db db_ok session cookies password st

unfoldable pub handle_all : List Request → Storage → Storage
unfolding handle
handle_all [] st = st
handle_all (q ∷ qs) st = handle_all qs (handle q st)
