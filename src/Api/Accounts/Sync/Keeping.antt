-- ===== src/Api/Accounts/Sync/Keeping.antt =====
-- app/api/routers: over any requests but removals the rows and the entries of accounts stay in step, and
-- what the registry has of an account that was removed.
use xianyu_manager.Api.Accounts.Sync.{
  IsSynced, Request, add, handle, handle_all, login_ends, refresh, remove, set_pause, set_remark,
  set_status, start, stop,
}
use xianyu_manager.Api.Accounts.Sync.Starts.{add-IsSynced, start-IsSynced, stop-IsSynced}
use xianyu_manager.Api.Accounts.Sync.Updates.{
  login_ends-IsSynced, pause-IsSynced, refresh-IsSynced, remark-IsSynced, set_status-IsSynced,
}
use xianyu_manager.Api.Accounts.{
  AccountCreateRequest, add_account, remove_account, with_enabled, row_of,
}
use xianyu_manager.Api.Accounts.Running.{register, start_account}
use xianyu_manager.Db.{AccountRow, Storage, update_account}
use xianyu_manager.Runtime.AccountRegistry.{
  AccountEntry, AccountRegistry, get_account, enable_account, change,
}
use xianyu_manager.Dict.{lookup}
use xianyu_manager.Dict.Laws.{lookup-erase_self, lookup-insert_self}
use xianyu_manager.Prelude.{
  All, Bool, List, String, some, none, ◌==◌, ap, ◌∙◌, arith, [], false, true, ◌∷◌, ◌≡◌, arith, some,
}

abbrev pub keeps : Request → Bool
keeps (add q) = true
keeps (remove id) = false
keeps (set_status id enabled) = true
keeps (set_remark id remark) = true
keeps (set_pause id n) = true
keeps (refresh f id cookies before) = true
keeps (start id) = true
keeps (stop id) = true
keeps (login_ends b session cookies password) = true

handle-IsSynced :
    (q : Request) (st : Storage) → keeps q ≡ true → IsSynced st → IsSynced (handle q st)
unfolding handle
handle-IsSynced (add q) st k h = add-IsSynced q st h
handle-IsSynced (remove id) st k h = absurd (ground (arith, k))
handle-IsSynced (set_status id b) st k h = set_status-IsSynced id b st h
handle-IsSynced (set_remark id remark) st k h = remark-IsSynced id remark st h
handle-IsSynced (set_pause id n) st k h = pause-IsSynced id n st h
handle-IsSynced (refresh f id cookies before) st k h = refresh-IsSynced f id cookies before st h
handle-IsSynced (start id) st k h = start-IsSynced id st h
handle-IsSynced (stop id) st k h = stop-IsSynced id st h
handle-IsSynced (login_ends b session cookies password) st k h =
    login_ends-IsSynced b session cookies password st h

-- Over any requests but removals, refused ones included, and logins that end in the background, every
-- running account has its row, with the same cookies and the same `enabled`, if it was so before.
pub handle_all-IsSynced :
    (qs : List Request) (st : Storage)
    → All (λ q. keeps q ≡ true) qs
    → IsSynced st
    → IsSynced (handle_all qs st)
unfolding handle_all
handle_all-IsSynced [] st k h = h
handle_all-IsSynced (q ∷ qs) st (k, ks) h =
    handle_all-IsSynced qs (handle q st) ks (handle-IsSynced q st k h)

removed-row : (id : String) (st : Storage) → lookup id (remove_account id st).1.rows ≡ none
unfolding remove_account
removed-row id st = ground (arith, lookup-erase_self id st.rows)

removed-registry : (id : String) (st : Storage) → (remove_account id st).1.registry ≡ st.registry
unfolding remove_account
removed-registry id st = ground arith

added-row :
    (q : AccountCreateRequest) (st : Storage)
    → (q.account_id == "") ≡ false
    → lookup q.account_id st.rows ≡ none
    → lookup q.account_id (add_account q st).1.rows ≡ some (row_of q)
unfolding add_account
added-row q st g h = ground (arith, lookup-insert_self q.account_id (row_of q) st.rows)

added-registry :
    (q : AccountCreateRequest) (st : Storage) → (add_account q st).1.registry ≡ st.registry
unfolding add_account
added-registry q st = ground arith

started-row :
    (id : String) (r : AccountRow) (st : Storage)
    → lookup id st.rows ≡ some r
    → lookup id (start_account id st).1.rows ≡ some (with_enabled true r)
unfolding start_account update_account
started-row id r st h = ground (arith, lookup-insert_self id (with_enabled true r) st.rows)

started-entry :
    (id : String) (r : AccountRow) (e : AccountEntry) (st : Storage)
    → lookup id st.rows ≡ some r
    → get_account id st.registry ≡ some e
    → get_account id (start_account id st).1.registry ≡ some (record e { enabled = true })
unfolding start_account register get_account xianyu_manager.Runtime.AccountRegistry.add_account
    enable_account change
started-entry id r e st h k =
    ground (arith, lookup-insert_self id (record e { enabled = true }) st.registry.accounts)

-- An account that runs when its row is removed is, once a request has added it anew and another has
-- started it, run with its entry of before, cookies included, whatever the cookies of the new row are.
pub readded-keeps_entry :
    (q : AccountCreateRequest) (e : AccountEntry) (st : Storage)
    → (q.account_id == "") ≡ false
    → get_account q.account_id st.registry ≡ some e
    → (lookup q.account_id
          (handle_all (remove q.account_id ∷ add q ∷ start q.account_id ∷ []) st).rows
        ≡ some (with_enabled true (row_of q)))
      × (get_account q.account_id
            (handle_all (remove q.account_id ∷ add q ∷ start q.account_id ∷ []) st).registry
          ≡ some (record e { enabled = true }))
unfolding handle_all handle
readded-keeps_entry q e st g h =
    let st1 : Storage = (remove_account q.account_id st).1 in
    let st2 : Storage = (add_account q st1).1 in
    let row = added-row q st1 g (removed-row q.account_id st) in
    (
      started-row q.account_id (row_of q) st2 row,
      started-entry q.account_id (row_of q) e st2 row (
          ap (get_account q.account_id) (added-registry q st1 ∙ removed-registry q.account_id st)
          ∙ h),
    )
