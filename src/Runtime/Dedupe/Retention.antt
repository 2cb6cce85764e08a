-- ===== src/Runtime/Dedupe/Retention.antt =====
-- An accepted id is recognised through the calls that follow.
-- A call leaves the window and the capacity as they are.
use xianyu_manager.Runtime.Dedupe.Eviction.{oldest-ne-none}
use xianyu_manager.Dict.Laws.{lookup-erase, lookup-insert_self}
use xianyu_manager.Runtime.Dedupe.Window.{is_duplicate_iff}
use xianyu_manager.Dict.{contains, erase, lookup}
use xianyu_manager.Runtime.Dedupe.{
  MessageDeduplicator, admit, evict_expired, is_duplicate, oldest, run,
}
use xianyu_manager.Runtime.Dedupe.Bounds.{IsValid, admit-IsValid, evict_expired-IsValid}
use xianyu_manager.Runtime.Dedupe.Kept.{IsKept, behind, behind-insert_self, is_duplicate-IsKept}
use xianyu_manager.Prelude.{
  ◌+◌, ◌<◌, ◌==◌, Bool-cases, List, Option-cases, String, [], arith, eq_iff, false, inl, inr, leb,
  length, none, some, true, ℕ, ◌∷◌, ◌≡◌, ◌≢◌, ◌≤◌,
}

pub is_duplicate_config :
    (now : ℕ) (id : String) (s : MessageDeduplicator)
    → ((is_duplicate now id s).1.ttl ≡ s.ttl) × ((is_duplicate now id s).1.max_size ≡ s.max_size)
unfolding is_duplicate admit evict_expired
is_duplicate_config now id s = ground arith

-- Calls whose times do not go back, from `before` to `last`.
abbrev pub InOrder : ℕ → List (ℕ × String) → ℕ → Type 0
InOrder before [] last = before ≤ last
InOrder before ((now, _) ∷ calls) last = (before ≤ now) × InOrder now calls last

pub InOrder-le :
    (before last : ℕ) (calls : List (ℕ × String)) → InOrder before calls last → before ≤ last
InOrder-le before last [] h = h
InOrder-le before last ((now, _) ∷ calls) h = omega (arith, InOrder-le now last calls h.1)

run_kept :
    (m : String) (t n before last : ℕ) (calls : List (ℕ × String)) (s : MessageDeduplicator)
    → (m == "") ≡ false
    → InOrder before calls last
    → last ≤ t + s.ttl
    → n + length calls < s.max_size
    → IsKept m t n before s
    → (is_duplicate last m (run calls s)).0 ≡ some true
unfolding run
run_kept m t n before last [] s ne order fresh lt k =
    (is_duplicate_iff before last m s order k.valid (ground (arith, eq_iff m ""))).1
      (t, k.found, fresh)
run_kept m t n before last ((now, id) ∷ calls) s ne order fresh lt k =
    let (ttl, size) = is_duplicate_config now id s in
    run_kept m t (n + 1) now last calls (is_duplicate now id s).1 ne order.1 (rw ttl fresh)
      (rw size (omega arith))
      (is_duplicate-IsKept m id t n before now s order.0
        (omega (arith, InOrder-le now last calls order.1)) (omega arith) k)

admit-found :
    (id : String) (now : ℕ) (s : MessageDeduplicator)
    → IsValid now s
    → lookup id s.seen ≡ none
    → (lookup id (admit now id s).1.seen ≡ some now) × (behind id (admit now id s).1.seen ≡ 0)
unfolding admit
admit-found id now s v new = elim (Bool-cases (leb s.max_size (length s.seen))) [
  | inl full ↦ elim (Option-cases (oldest s.seen)) [
    | inl empty ↦ absurd (oldest-ne-none s.seen (ground (arith, v.room)) empty)
    | inr (j, e) ↦
        let d = erase j s.seen in
        rw (full, e)
          (
            lookup-insert_self id now d,
            behind-insert_self id now d (ground (arith, lookup-erase j id s.seen)),
          )
  ]
  | inr space ↦ rw space (lookup-insert_self id now s.seen, behind-insert_self id now s.seen new)
]

accepted-IsKept :
    (id : String) (before now : ℕ) (s : MessageDeduplicator)
    → before ≤ now
    → IsValid before s
    → id ≢ ""
    → (is_duplicate now id s).0 ≡ some false
    → IsKept id now 0 now (is_duplicate now id s).1
unfolding is_duplicate
accepted-IsKept id before now s le v ne accepted =
    let s' = evict_expired now s in
    let v' : IsValid now s' = evict_expired-IsValid now id s before le v in
    let named : (id == "") ≡ false = ground (arith, eq_iff id "") in
    elim (Bool-cases (contains id s'.seen)) [
      | inl old ↦ absurd (ground arith)
      | inr new ↦
          let absent : lookup id s'.seen ≡ none = ground arith in
          let (found, near) = admit-found id now s' v' absent in
          rw (named, new)
            record {
              valid = admit-IsValid now id s' v' absent;
              found = found;
              near = omega (arith, near);
            }
    ]

-- An id that was accepted as new is answered "duplicate" at every later time within the window, if
-- fewer than `max_size` calls, with whatever ids, came in between and no clock reading goes back.
pub run-remembers :
    (id : String) (before now last : ℕ) (calls : List (ℕ × String)) (s : MessageDeduplicator)
    → before ≤ now
    → IsValid before s
    → id ≢ ""
    → (is_duplicate now id s).0 ≡ some false
    → InOrder now calls last
    → last ≤ now + s.ttl
    → length calls < s.max_size
    → (is_duplicate last id (run calls (is_duplicate now id s).1)).0 ≡ some true
run-remembers id before now last calls s le v ne accepted order fresh lt =
    let (ttl, size) = is_duplicate_config now id s in
    run_kept id now 0 now last calls (is_duplicate now id s).1 (ground (arith, eq_iff id "")) order
      (rw ttl fresh) (rw size (omega arith)) (accepted-IsKept id before now s le v ne accepted)
