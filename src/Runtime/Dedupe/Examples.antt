-- ===== src/Runtime/Dedupe/Examples.antt =====
-- Runs of the store, and the theorems at inputs that meet their hypotheses.
use xianyu_manager.Runtime.Dedupe.Retention.{run-remembers}
use xianyu_manager.Runtime.Dedupe.Window.{is_duplicate_iff}
use xianyu_manager.Dict.{erase, erase_all, insert, keys_where, lookup}
use xianyu_manager.Runtime.Dedupe.{
  MessageDeduplicator, admit, evict_expired, init, is_duplicate, oldest, run,
}
use xianyu_manager.Runtime.Dedupe.Bounds.{IsValid, is_duplicate-IsValid}
use xianyu_manager.Prelude.{
  ◌+◌, Bool, List, Option, String, [], ap, arith, eq_iff, false, none, refl, some, true, ℕ, ◌↔◌,
  ◌∷◌, ◌≡◌, ◌≢◌, ◌≤◌,
}

abbrev twice_ids : List (ℕ × String)
twice_ids = (11, "b") ∷ []

abbrev store : MessageDeduplicator
store = record { seen = ("x", 4) ∷ ("y", 9) ∷ []; ttl = 10; max_size = 2 }

store-IsValid : IsValid 9 store
unfolding lookup
store-IsValid = record {
  distinct = ground arith;
  ascending = omega arith;
  bounded = omega arith;
  room = omega arith;
}

-- The second "a" is a duplicate; the oldest id made room for it.
accepts :
    is_duplicate 10 "a" store ≡ (some false, record store { seen = ("y", 9) ∷ ("a", 10) ∷ [] })
unfolding is_duplicate evict_expired admit oldest keys_where erase_all erase insert lookup
accepts = refl

-- With no room at all `min` raises.
no_room : (is_duplicate 10 "a" (init 10 0)).0 ≡ none
unfolding is_duplicate evict_expired admit oldest keys_where erase_all lookup init
no_room = refl

is_duplicate-IsValid_example :
    IsValid 10 (is_duplicate 10 "a" store).1 × ((is_duplicate 10 "a" store).0 ≢ none)
is_duplicate-IsValid_example = is_duplicate-IsValid 9 10 "a" store (omega arith) store-IsValid

is_duplicate_iff_example :
    ((is_duplicate 14 "x" store).0 ≡ some true)
    ↔ ((t : ℕ) × (lookup "x" store.seen ≡ some t) × (14 ≤ t + 10))
is_duplicate_iff_example =
    is_duplicate_iff 9 14 "x" store (omega arith) store-IsValid (ground (arith, eq_iff "x" ""))

run-remembers_example :
    (is_duplicate 20 "a" (run twice_ids (is_duplicate 10 "a" store).1)).0 ≡ some true
run-remembers_example =
    run-remembers "a" 9 10 20 twice_ids store (omega arith) store-IsValid
      (ground (arith, eq_iff "a" "")) (ap (λ (r : Option Bool × MessageDeduplicator). r.0) accepts)
      (omega arith) (omega arith) (omega arith)
