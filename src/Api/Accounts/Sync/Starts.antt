-- ===== src/Api/Accounts/Sync/Starts.antt =====
-- app/api/routers: new, started and stopped accounts stay in step.
use xianyu_manager.Api.Accounts.{
  AccountResponse, map_account, AccountCreateRequest, add_account, no_account, row_of, with_enabled,
}
use xianyu_manager.Api.Accounts.Running.{
  register, start_account, stop_account, RuntimeAccountResponse, is_active,
}
use xianyu_manager.Api.Accounts.Sync.{
  IsSyncedAfter, either-IsSynced, enabled-agree, IsSynced, agree, changed-IsSynced, mapped,
  update_account-lookup,
}
use xianyu_manager.Api.{Answer, answered, conflict, refused, unprocessable}
use xianyu_manager.Db.{AccountRow, Storage, update_account}
use xianyu_manager.Runtime.AccountRegistry.Histories.{
  add_account-get_account, change-get_account, effect, modified, op_add,
}
use xianyu_manager.Runtime.AccountRegistry.{
  AccountEntry, change, disable_account, enable_account, get_account,
}
use xianyu_manager.Dict.{insert, lookup, is_some}
use xianyu_manager.Dict.Laws.{lookup-insert}
use xianyu_manager.Prelude.{
  Bool, Option, String, false, if◌then◌else◌, none, some, true, ◌==◌, ◌≡◌, refl, arith, eq_iff,
  eq_refl, ◌∙◌, ap,
}
use Prim.Native.String.{◌++◌ as ◌⊕◌}

-- An account without a row has no entry, so that any row agrees with it.
new_row-agree :
    (r : AccountRow) (p : Option AccountRow) (o : Option AccountEntry)
    → p ≡ none
    → agree p o ≡ true
    → agree (some r) o ≡ true
new_row-agree r p none g h = refl
new_row-agree r none (some e) g h = absurd (ground (arith, h))
new_row-agree r (some t) (some e) g h = absurd (ground (arith, g))

insert-IsSynced :
    (id : String) (r : AccountRow) (st : Storage)
    → lookup id st.rows ≡ none
    → IsSynced st
    → IsSynced (record st { rows = insert id r st.rows })
insert-IsSynced id r st g h j =
    ap (λ p. agree p (get_account j st.registry)) (lookup-insert id j r st.rows)
    ∙ at_key (id == j) refl
  where
    at_key :
        (b : Bool)
        → id == j ≡ b
        → agree (if b then some r else lookup j st.rows) (get_account j st.registry) ≡ true
    at_key false e = h j
    at_key true e =
        new_row-agree r (lookup j st.rows) (get_account j st.registry) (ground (arith, eq_iff id j))
          (h j)

pub add-IsSynced :
    (q : AccountCreateRequest) (st : Storage) → IsSynced st → IsSyncedAfter (add_account q st)
unfolding add_account
add-IsSynced q st h =
    either-IsSynced (q.account_id == "") (invalid, st) _ h
      (by_lookup (lookup q.account_id st.rows) refl)
  where
    invalid : Answer AccountResponse
    invalid = refused (unprocessable "String should have at least 1 character")

    taken : Answer AccountResponse
    taken = refused (conflict ("Account '" ⊕ q.account_id ⊕ "' already exists"))

    by_lookup :
        (o : Option AccountRow)
        → lookup q.account_id st.rows ≡ o
        → IsSyncedAfter (
            if is_some o then (taken, st) else (
              answered (map_account q.account_id (row_of q)),
              record st { rows = insert q.account_id (row_of q) st.rows },
            ))
    by_lookup none g = insert-IsSynced q.account_id (row_of q) st g h
    by_lookup (some r) g = h

pub stop-IsSynced : (id : String) (st : Storage) → IsSynced st → IsSyncedAfter (stop_account id st)
unfolding stop_account disable_account
stop-IsSynced id st h = by_lookup (lookup id st.rows)
  where
    by_lookup :
        (o : Option AccountRow)
        → IsSyncedAfter (elim o as (λ _. Answer RuntimeAccountResponse × Storage) [
          | none ↦ (no_account, st)
          | some r ↦ (
            answered (record {
              account_id = id;
              enabled = false;
              runtime_registered = is_some (get_account id st.registry);
              runtime_active = is_active (get_account id st.registry);
              username = r.username;
              notes = r.notes;
            }),
            record {
              rows = update_account id (with_enabled false) st.rows;
              registry = (disable_account id st.registry).1;
            },
          )
        ])
    by_lookup none = h
    by_lookup (some r) =
        changed-IsSynced id (with_enabled false) (λ e. record e { enabled = false }) st
          (enabled-agree false) h

-- The entry of a started account: as it was, or made of its row, and enabled.
started-agree :
    (b : Bool) (id : String) (r : AccountRow) (p : Option AccountRow) (o : Option AccountEntry)
    → (b ≡ true → p ≡ some r)
    → agree p o ≡ true
    → agree (if b then mapped (with_enabled true) p else p) (
        if b
        then modified
            (λ e. record e { enabled = true })
            (if b then effect (op_add id r.cookie_str r.username r.notes) o else o)
        else (if b then effect (op_add id r.cookie_str r.username r.notes) o else o))
      ≡ true
started-agree false id r p o k h = h
started-agree true id r none o k h = absurd (ground (arith, k refl))
started-agree true id r (some t) none k h = ground (arith, k refl, eq_refl r.cookie_str)
started-agree true id r (some t) (some e) k h = enabled-agree true t e h

pub start-IsSynced :
    (id : String) (st : Storage) → IsSynced st → IsSyncedAfter (start_account id st)
unfolding start_account enable_account register
start-IsSynced id st h = by_lookup (lookup id st.rows) refl
  where
    by_lookup :
        (o : Option AccountRow)
        → lookup id st.rows ≡ o
        → IsSyncedAfter (elim o as (λ _. Answer RuntimeAccountResponse × Storage) [
          | none ↦ (no_account, st)
          | some r ↦
              let registry = register id r st.registry in
              (
                answered (record {
                  account_id = id;
                  enabled = true;
                  runtime_registered = true;
                  runtime_active = is_active (get_account id registry);
                  username = r.username;
                  notes = r.notes;
                }),
                record {
                  rows = update_account id (with_enabled true) st.rows;
                  registry = (enable_account id registry).1;
                },
              )
        ])
    by_lookup none g j = h j
    by_lookup (some r) g j =
        ap (λ p. agree p (get_account j (change id on (register id r st.registry)).1))
          (update_account-lookup id j (with_enabled true) st.rows)
        ∙ ap (agree rows') (change-get_account id j on (register id r st.registry))
        ∙ ap (λ o. agree rows' (if id == j then modified on o else o))
            (add_account-get_account id r.cookie_str r.username r.notes j st.registry)
        ∙ started-agree (id == j) id r (lookup j st.rows) (get_account j st.registry)
            (λ e. ground (arith, eq_iff id j)) (h j)
      where
        on : AccountEntry → AccountEntry
        on e = record e { enabled = true }

        rows' : Option AccountRow
        rows' = if id == j then mapped (with_enabled true) (lookup j st.rows) else lookup j st.rows
