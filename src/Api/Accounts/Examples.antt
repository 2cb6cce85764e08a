-- ===== src/Api/Accounts/Examples.antt =====
-- Accounts that requests add, start and remove.
use xianyu_manager.Api.Accounts.Sync.Keeping.{handle_all-IsSynced, readded-keeps_entry}
use xianyu_manager.Api.Accounts.Sync.{
  IsSynced, Request, add, handle_all, refresh, remove, set_pause, set_status, start,
}
use xianyu_manager.Api.Accounts.{
  RefreshResult, fails_with, gives, AccountCreateRequest, format_cookie_string, row_of,
  with_enabled, add_account, refresh_account_cookie, update_account_pause_duration,
  update_account_status,
}
use xianyu_manager.Api.Accounts.Running.{start_account}
use xianyu_manager.Db.{Storage}
use xianyu_manager.Dict.{Dict, lookup}
use xianyu_manager.Runtime.AccountRegistry.{
  AccountEntry, get_account, init, AccountRegistry, disable_account, enable_account,
}
use xianyu_manager.Prelude.{
  List, String, [], false, none, refl, some, true, ◌==◌, ◌∷◌, ◌≡◌, if◌then◌else◌,
}

abbrev anna : AccountCreateRequest
anna = record {
  account_id = "anna";
  cookie_str = "unb=1";
  username = "";
  password = "";
  notes = "";
  enabled = false;
  show_browser = false;
}

abbrev renewed : String → RefreshResult
renewed cookies =
    if cookies == "bad" then fails_with "no session" else gives (("unb", cookies) ∷ ("", "x") ∷ [])

abbrev empty : Storage
empty = record { rows = []; registry = init }

-- The storage that the look-up of the row reads.
abbrev here : Storage
here = record { rows = ("anna", row_of anna) ∷ []; registry = init }

abbrev requests : List Request
requests =
    start "anna"
    ∷ add anna
    ∷ start "anna"
    ∷ refresh renewed "anna" "2" here
    ∷ set_pause "anna" 61
    ∷ set_status "anna" false
    ∷ []

abbrev entry_now : AccountEntry
entry_now = record {
  account_id = "anna";
  cookie_str = "unb=2";
  username = "";
  notes = "";
  enabled = false;
  runtime_instance = none;
  background_task = none;
}

handle_all-IsSynced_example : IsSynced (handle_all requests empty)
unfolding get_account lookup
handle_all-IsSynced_example =
    handle_all-IsSynced requests empty (refl, (refl, (refl, (refl, (refl, (refl, tt))))))
      (λ id. refl)

running-entry : get_account "anna" (handle_all requests empty).registry ≡ some entry_now
unfolding handle_all get_account lookup xianyu_manager.Api.Accounts.update_account_status
    xianyu_manager.Api.Accounts.update_account_pause_duration
    xianyu_manager.Api.Accounts.refresh_account_cookie
    xianyu_manager.Api.Accounts.Running.start_account xianyu_manager.Api.Accounts.add_account
    xianyu_manager.Dict.insert xianyu_manager.Runtime.AccountRegistry.disable_account
    xianyu_manager.Runtime.AccountRegistry.enable_account
    xianyu_manager.Runtime.AccountRegistry.add_account
running-entry = refl

readded-keeps_entry_example :
    (lookup "anna"
        (handle_all (remove "anna" ∷ add anna ∷ start "anna" ∷ []) (handle_all requests empty)).rows
      ≡ some (with_enabled true (row_of anna)))
    × (get_account "anna"
          (handle_all
            (remove "anna" ∷ add anna ∷ start "anna" ∷ [])
            (handle_all requests empty)).registry
        ≡ some (record entry_now { enabled = true }))
readded-keeps_entry_example =
    readded-keeps_entry anna entry_now (handle_all requests empty) refl running-entry

format_two : format_cookie_string (("a", "1") ∷ ("", "x") ∷ ("b", "2") ∷ []) ≡ "a=1; b=2"
unfolding format_cookie_string
format_two = refl
