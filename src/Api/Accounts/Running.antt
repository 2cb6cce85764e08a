-- ===== src/Api/Accounts/Running.antt =====
-- app/api/routers/runtime.py, the accounts: what the runtime tells of them, and the requests that start and
-- stop them; and the lists of accounts of the other two routers.
use xianyu_manager.Api.Accounts.{
  AccountCompatDetailResponse, AccountResponse, map_account, map_account_detail, no_account,
  with_enabled,
}
use xianyu_manager.Api.{Answer, answered}
use xianyu_manager.Db.{AccountRow, Storage, update_account}
use xianyu_manager.Dict.{Dict, is_some, lookup}
use xianyu_manager.Runtime.AccountRegistry.{
  AccountEntry, AccountRegistry, disable_account, enable_account, get_account,
}
use xianyu_manager.Runtime.AccountRegistry as Registry
use xianyu_manager.Prelude.{Bool, List, Option, String, [], false, none, some, true, ◌∷◌}
use Prim.Native.String as Chars
use Prim.Native.Nat.{Ordering}

-- What the runtime tells of an account.
pub record RuntimeAccountResponse : Type 0 where
  pub account_id : String
  pub enabled : Bool
  pub runtime_registered : Bool
  pub runtime_active : Bool
  pub username : String
  pub notes : String

abbrev pub is_active : Option AccountEntry → Bool
is_active none = false
is_active (some e) = is_some e.runtime_instance

abbrev pub enabled_of : Option AccountEntry → AccountRow → Bool
enabled_of none r = r.enabled
enabled_of (some e) r = e.enabled

-- One element of `list_runtime_accounts`.
unfoldable pub runtime_account : String → AccountRow → AccountRegistry → RuntimeAccountResponse
unfolding get_account
runtime_account account_id r registry = record {
  account_id = account_id;
  enabled = enabled_of (get_account account_id registry) r;
  runtime_registered = is_some (get_account account_id registry);
  runtime_active = is_active (get_account account_id registry);
  username = r.username;
  notes = r.notes;
}

-- `ORDER BY account_id`
unfoldable pub place_account : String → AccountRow → Dict AccountRow → Dict AccountRow
place_account id r [] = (id, r) ∷ []
place_account id r ((j, t) ∷ d) =
    let rest = place_account id r d in
    elim (Chars.compare id j) [ Ordering.gt ↦ (j, t) ∷ rest | _ ↦ (id, r) ∷ (j, t) ∷ d ]

unfoldable pub ordered_accounts : Dict AccountRow → Dict AccountRow
unfolding place_account
ordered_accounts [] = []
ordered_accounts ((id, r) ∷ d) = place_account id r (ordered_accounts d)

unfoldable pub rows_as {ℓ} : {A : Type ℓ} → (String → AccountRow → A) → Dict AccountRow → List A
rows_as f [] = []
rows_as f ((id, r) ∷ d) = f id r ∷ rows_as f d

unfoldable pub list_accounts : Storage → List AccountResponse
unfolding rows_as ordered_accounts map_account
list_accounts st = rows_as map_account (ordered_accounts st.rows)

unfoldable pub list_account_details : Storage → List AccountCompatDetailResponse
unfolding rows_as ordered_accounts map_account_detail
list_account_details st = rows_as map_account_detail (ordered_accounts st.rows)

unfoldable pub get_account_details : String → Storage → Answer AccountCompatDetailResponse
unfolding map_account_detail
get_account_details account_id st = elim (lookup account_id st.rows) [
  | none ↦ no_account
  | some r ↦ answered (map_account_detail account_id r)
]

unfoldable pub list_runtime_accounts : Storage → List RuntimeAccountResponse
unfolding rows_as ordered_accounts runtime_account
list_runtime_accounts st =
    rows_as (λ id r. runtime_account id r st.registry) (ordered_accounts st.rows)

-- The registry has the account afterwards: as it was, or with the fields of its row.
unfoldable pub register : String → AccountRow → AccountRegistry → AccountRegistry
register account_id r registry =
    (Registry.add_account account_id r.cookie_str r.username r.notes registry).1

unfoldable pub start_account : String → Storage → Answer RuntimeAccountResponse × Storage
unfolding update_account register get_account
start_account account_id st = elim (lookup account_id st.rows) [
  | none ↦ (no_account, st)
  | some r ↦
      let registry = register account_id r st.registry in
      (
        answered (record {
          account_id = account_id;
          enabled = true;
          runtime_registered = true;
          runtime_active = is_active (get_account account_id registry);
          username = r.username;
          notes = r.notes;
        }),
        record {
          rows = update_account account_id (with_enabled true) st.rows;
          registry = (enable_account account_id registry).1;
        },
      )
]

unfoldable pub stop_account : String → Storage → Answer RuntimeAccountResponse × Storage
unfolding update_account get_account
stop_account account_id st = elim (lookup account_id st.rows) [
  | none ↦ (no_account, st)
  | some r ↦ (
    answered (record {
      account_id = account_id;
      enabled = false;
      runtime_registered = is_some (get_account account_id st.registry);
      runtime_active = is_active (get_account account_id st.registry);
      username = r.username;
      notes = r.notes;
    }),
    record {
      rows = update_account account_id (with_enabled false) st.rows;
      registry = (disable_account account_id st.registry).1;
    },
  )
]
