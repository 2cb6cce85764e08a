-- ===== src/Runtime/AccountRegistry/Examples.antt =====
-- Two accounts, and the theorem at their operations.
use xianyu_manager.Runtime.AccountRegistry.Histories.{
  get_account-run, history, op_add, op_disable, op_register, op_remove, Op, run, apply,
}
use xianyu_manager.Dict.{erase, insert, lookup}
use xianyu_manager.Runtime.AccountRegistry.{
  account_not_found, add_account, change, count, disable_account, get_account, init, list_accounts,
  new_entry, register_runtime, remove_account, values,
}
use xianyu_manager.Prelude.{List, [], false, none, refl, some, ◌∷◌, ◌≡◌}

abbrev ops : List Op
ops =
    op_add "a" "unb=1" "" ""
    ∷ op_add "b" "unb=2" "" ""
    ∷ op_disable "a"
    ∷ op_add "a" "unb=3" "" ""
    ∷ op_remove "b"
    ∷ op_register "b" 7 none
    ∷ []

outcome :
    let r = run ops init in
    (list_accounts r ≡ record (new_entry "a" "unb=1" "" "") { enabled = false } ∷ [])
    × (count r ≡ 1)
    × ((remove_account "b" r).0 ≡ some (account_not_found "b"))
unfolding run apply add_account remove_account disable_account register_runtime change list_accounts
    values count lookup insert erase
outcome = (refl, refl, refl)

get_account-run_example : get_account "a" (run ops init) ≡ history "a" ops (get_account "a" init)
get_account-run_example = get_account-run "a" ops init
