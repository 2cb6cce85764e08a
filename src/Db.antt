-- ===== src/Db.antt =====
-- app/db/schema.py: the table of accounts, by account id, and the registry of running accounts of
-- app/runtime/account_registry.py, which the requests and the logins keep in step. The key and the times
-- of rows are left out.
use xianyu_manager.Dict.{Dict, insert, lookup}
use xianyu_manager.Runtime.AccountRegistry.{AccountRegistry, change}
use xianyu_manager.Prelude.{Bool, String, none, some, ℕ}

pub record AccountRow : Type 0 where
  pub cookie_str : String
  pub username : String
  pub password : String
  pub notes : String
  pub enabled : Bool
  pub show_browser : Bool
  pub pause_duration : ℕ

pub record Storage : Type 0 where
  pub rows : Dict AccountRow
  pub registry : AccountRegistry

-- `UPDATE xianyu_accounts SET … WHERE account_id = ?`
unfoldable pub update_account :
    String → (AccountRow → AccountRow) → Dict AccountRow → Dict AccountRow
update_account account_id f rows = elim (lookup account_id rows) [
  | none ↦ rows
  | some r ↦ insert account_id (f r) rows
]

-- `entry.cookie_str = …`, where the registry has the account.
unfoldable pub set_registry_cookie : String → String → AccountRegistry → AccountRegistry
set_registry_cookie account_id cookie_str registry =
    (change account_id (λ e. record e { cookie_str = cookie_str }) registry).1
