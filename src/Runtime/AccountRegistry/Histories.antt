-- ===== src/Runtime/AccountRegistry/Histories.antt =====
-- What becomes of one account over any operations, and what the registry keeps.
use xianyu_manager.Dict.Laws.{lookup-erase, lookup-insert}
use xianyu_manager.Dict.{insert, lookup}
use xianyu_manager.Runtime.AccountRegistry.{
  AccountEntry, AccountRegistry, Outcome, add_account, change, disable_account, enable_account,
  get_account, new_entry, register_runtime, remove_account, account_not_found,
}
use xianyu_manager.Prelude.{
  ◌==◌, List, Option, String, [], ap, false, if◌then◌else◌, none, refl, some, true, ℕ, ◌∙◌, ◌∷◌,
  ◌≡◌, arith, eq_iff,
}

pub data Op : Type 0 where
  op_add : String → String → String → String → Op
  op_remove op_enable op_disable : String → Op
  op_register : String → ℕ → Option ℕ → Op

unfoldable pub apply : Op → AccountRegistry → Outcome
apply (op_add k cookie username notes) r = add_account k cookie username notes r
apply (op_remove k) r = remove_account k r
apply (op_enable k) r = enable_account k r
apply (op_disable k) r = disable_account k r
apply (op_register k i t) r = register_runtime k i t r

unfoldable pub run : List Op → AccountRegistry → AccountRegistry
run [] r = r
run (op ∷ ops) r = run ops (apply op r).1

-- The account that an operation names, and what the operation makes of its entry.
abbrev pub named : Op → String
named (op_add k _ _ _) = k
named (op_remove k) = k
named (op_enable k) = k
named (op_disable k) = k
named (op_register k _ _) = k

abbrev pub modified : (AccountEntry → AccountEntry) → Option AccountEntry → Option AccountEntry
modified f none = none
modified f (some e) = some (f e)

abbrev pub effect : Op → Option AccountEntry → Option AccountEntry
effect (op_add k cookie username notes) none = some (new_entry k cookie username notes)
effect (op_add k cookie username notes) (some e) = some e
effect (op_remove _) _ = none
effect (op_enable _) o = modified (λ e. record e { enabled = true }) o
effect (op_disable _) o = modified (λ e. record e { enabled = false }) o
effect (op_register _ i t) o =
    modified (λ e. record e { runtime_instance = some i; background_task = t }) o

-- The entry of one account after the operations that name it.
abbrev pub history : String → List Op → Option AccountEntry → Option AccountEntry
history j [] o = o
history j (op ∷ ops) o = history j ops (if named op == j then effect op o else o)

pub change-get_account :
    (k j : String) (f : AccountEntry → AccountEntry) (r : AccountRegistry)
    → get_account j (change k f r).1
      ≡ (if k == j then modified f (get_account j r) else get_account j r)
unfolding change get_account
change-get_account k j f r = by_lookup (lookup k r.accounts) refl
  where
    by_lookup :
        (o : Option AccountEntry)
        → lookup k r.accounts ≡ o
        → lookup j
            (elim o as (λ _. Outcome) [
              | none ↦ (some (account_not_found k), r)
              | some e ↦ (none, record r { accounts = insert k (f e) r.accounts })
            ]).1.accounts
          ≡ (if k == j then modified f (lookup j r.accounts) else lookup j r.accounts)
    by_lookup none h = ground (arith, eq_iff k j)
    by_lookup (some e) h = ground (arith, eq_iff k j, lookup-insert k j (f e) r.accounts)

pub add_account-get_account :
    (k cookie username notes j : String) (r : AccountRegistry)
    → get_account j (add_account k cookie username notes r).1 ≡ (
        if k == j
        then effect (op_add k cookie username notes) (get_account j r)
        else get_account j r)
unfolding add_account get_account
add_account-get_account k cookie username notes j r =
    ground (arith, eq_iff k j, lookup-insert k j (new_entry k cookie username notes) r.accounts)

remove_account-get_account :
    (k j : String) (r : AccountRegistry)
    → get_account j (remove_account k r).1 ≡ (if k == j then none else get_account j r)
unfolding remove_account get_account
remove_account-get_account k j r = ground (arith, eq_iff k j, lookup-erase k j r.accounts)

apply-get_account :
    (op : Op) (j : String) (r : AccountRegistry)
    → get_account j (apply op r).1
      ≡ (if named op == j then effect op (get_account j r) else get_account j r)
unfolding apply enable_account disable_account register_runtime
apply-get_account (op_add k cookie username notes) j r =
    add_account-get_account k cookie username notes j r
apply-get_account (op_remove k) j r = remove_account-get_account k j r
apply-get_account (op_enable k) j r = change-get_account k j (λ e. record e { enabled = true }) r
apply-get_account (op_disable k) j r = change-get_account k j (λ e. record e { enabled = false }) r
apply-get_account (op_register k i t) j r =
    change-get_account k j (λ e. record e { runtime_instance = some i; background_task = t }) r

-- What the registry holds of an account after any operations is what the operations that name it make
-- of its entry, in their order, whatever the others do: it is added if it is not there, removed,
-- enabled, disabled, or given its runtime, and an operation on a missing account changes nothing.
pub get_account-run :
    (j : String) (ops : List Op) (r : AccountRegistry)
    → get_account j (run ops r) ≡ history j ops (get_account j r)
unfolding run
get_account-run j [] r = refl
get_account-run j (op ∷ ops) r =
    get_account-run j ops (apply op r).1 ∙ ap (history j ops) (apply-get_account op j r)
