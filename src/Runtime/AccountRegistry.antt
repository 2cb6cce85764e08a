-- ===== src/Runtime/AccountRegistry.antt =====
-- app/runtime/account_registry.py: the accounts that run. Each method holds the registry's lock. A
-- runtime or a task is the number that tells it from others. An entry that a method returns is a value
-- here: only the methods change an entry.
pub mod Histories
mod Examples
use xianyu_manager.Dict.{Dict, contains, erase, insert, lookup}
use xianyu_manager.Prelude.{
  Bool, List, Option, String, [], false, if◌then◌else◌, length, none, some, true, ℕ, ◌∷◌,
}

pub data RegistryError : Type 0 where
  duplicate_account account_not_found : String → RegistryError

pub record AccountEntry : Type 0 where
  pub account_id : String
  pub cookie_str : String
  pub username : String
  pub notes : String
  pub enabled : Bool
  pub runtime_instance : Option ℕ
  pub background_task : Option ℕ

pub record AccountRegistry : Type 0 where
  pub accounts : Dict AccountEntry

abbrev pub init : AccountRegistry
init = record { accounts = [] }

-- The exception that a method raises, if any, and the registry that it leaves.
abbrev pub Outcome : Type 0
Outcome = Option RegistryError × AccountRegistry

abbrev pub new_entry : String → String → String → String → AccountEntry
new_entry account_id cookie_str username notes = record {
  account_id = account_id;
  cookie_str = cookie_str;
  username = username;
  notes = notes;
  enabled = true;
  runtime_instance = none;
  background_task = none;
}

unfoldable pub add_account : String → String → String → String → AccountRegistry → Outcome
add_account account_id cookie_str username notes r =
    if contains account_id r.accounts then (some (duplicate_account account_id), r) else (
      none,
      record r {
        accounts = insert account_id (new_entry account_id cookie_str username notes) r.accounts;
      },
    )

unfoldable pub remove_account : String → AccountRegistry → Outcome
remove_account account_id r =
    if contains account_id r.accounts
    then (none, record r { accounts = erase account_id r.accounts })
    else (some (account_not_found account_id), r)

unfoldable pub get_account : String → AccountRegistry → Option AccountEntry
get_account account_id r = lookup account_id r.accounts

-- `list(self._accounts.values())`
unfoldable pub values : Dict AccountEntry → List AccountEntry
values [] = []
values ((_, e) ∷ d) = e ∷ values d

unfoldable pub list_accounts : AccountRegistry → List AccountEntry
unfolding values
list_accounts r = values r.accounts

-- The change of an entry in its place, or the error of an account that is not there.
unfoldable pub change : String → (AccountEntry → AccountEntry) → AccountRegistry → Outcome
change account_id f r = elim (lookup account_id r.accounts) [
  | none ↦ (some (account_not_found account_id), r)
  | some e ↦ (none, record r { accounts = insert account_id (f e) r.accounts })
]

unfoldable pub enable_account : String → AccountRegistry → Outcome
unfolding change
enable_account account_id r = change account_id (λ e. record e { enabled = true }) r

unfoldable pub disable_account : String → AccountRegistry → Outcome
unfolding change
disable_account account_id r = change account_id (λ e. record e { enabled = false }) r

unfoldable pub register_runtime : String → ℕ → Option ℕ → AccountRegistry → Outcome
unfolding change
register_runtime account_id instance_id task r =
    change account_id
      (λ e. record e { runtime_instance = some instance_id; background_task = task }) r

unfoldable pub count : AccountRegistry → ℕ
count r = length r.accounts
