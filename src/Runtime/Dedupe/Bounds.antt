-- ===== src/Runtime/Dedupe/Bounds.antt =====
-- The store stays well-formed: distinct ids, at most `max_size` of them, in the order of their times.
use xianyu_manager.Dict.Laws.{lookup-erase}
use xianyu_manager.Prelude.{
  ℕ, ◌≤◌, ◌<◌, String, ◌≡◌, refl, none, some, List, [], ◌∷◌, arith, length, Bool-cases, ◌≢◌, leb,
  ◌==◌, inl, inr,
}
use xianyu_manager.Dict.{Dict, lookup, insert, erase, erase_all, contains}
use xianyu_manager.Dict.Sizes.{
  IsDistinct, insert-IsDistinct, erase-IsDistinct, length-erase, length-insert,
}
use xianyu_manager.Runtime.Dedupe.{
  MessageDeduplicator, evict_expired, min_from, oldest, admit, is_duplicate,
}
use xianyu_manager.Runtime.Dedupe.Eviction.{
  evict_expired-IsDistinct, length-evict_expired, oldest-contains,
}

-- Times that ascend from `lo` and do not pass `hi`.
abbrev pub IsAscending : ℕ → ℕ → Dict ℕ → Type 0
IsAscending lo hi [] = lo ≤ hi
IsAscending lo hi ((_, t) ∷ d) = (lo ≤ t) × IsAscending t hi d

pub record IsValid (now : ℕ) (s : MessageDeduplicator) : Type 0 where
  pub distinct : IsDistinct s.seen
  pub ascending : IsAscending 0 now s.seen
  pub bounded : length s.seen ≤ s.max_size
  pub room : 0 < s.max_size

IsAscending-le : (lo hi : ℕ) (d : Dict ℕ) → IsAscending lo hi d → lo ≤ hi
IsAscending-le lo hi [] h = h
IsAscending-le lo hi ((_, t) ∷ d) h = omega (arith, IsAscending-le t hi d h.1)

IsAscending-weaken :
    (lo' lo hi hi' : ℕ) (d : Dict ℕ)
    → lo' ≤ lo
    → hi ≤ hi'
    → IsAscending lo hi d
    → IsAscending lo' hi' d
IsAscending-weaken lo' lo hi hi' [] p q h = omega arith
IsAscending-weaken lo' lo hi hi' ((_, t) ∷ d) p q h =
    (omega arith, IsAscending-weaken t t hi hi' d (omega arith) q h.1)

erase-IsAscending :
    (k : String) (lo hi : ℕ) (d : Dict ℕ) → IsAscending lo hi d → IsAscending lo hi (erase k d)
unfolding erase
erase-IsAscending k lo hi [] h = h
erase-IsAscending k lo hi ((j, t) ∷ d) h = ground (
  arith,
  erase-IsAscending k t hi d h.1,
  IsAscending-weaken lo t hi hi (erase k d) h.0 (omega arith),
)

erase_all-IsAscending :
    (ks : List String) (lo hi : ℕ) (d : Dict ℕ)
    → IsAscending lo hi d
    → IsAscending lo hi (erase_all ks d)
unfolding erase_all
erase_all-IsAscending [] lo hi d h = h
erase_all-IsAscending (k ∷ ks) lo hi d h =
    erase_all-IsAscending ks lo hi (erase k d) (erase-IsAscending k lo hi d h)

-- A new key goes behind all others.
insert-IsAscending :
    (k : String) (lo now : ℕ) (d : Dict ℕ)
    → lookup k d ≡ none
    → IsAscending lo now d
    → IsAscending lo now (insert k now d)
unfolding insert lookup
insert-IsAscending k lo now [] e h = ground arith
insert-IsAscending k lo now ((j, t) ∷ d) e h = ground (arith, insert-IsAscending k t now d)

-- In a store whose times ascend the oldest entry is the first.
pub oldest-first :
    (k : String) (t lo hi : ℕ) (d : Dict ℕ)
    → IsAscending lo hi ((k, t) ∷ d)
    → oldest ((k, t) ∷ d) ≡ some k
unfolding oldest min_from
oldest-first k t lo hi [] h = refl
oldest-first k t lo hi ((j, u) ∷ d) h =
    ground (arith, oldest-first k t lo hi d, IsAscending-weaken t u hi hi d)

module _ (now : ℕ) (id : String) (s : MessageDeduplicator) where
  pub evict_expired-IsValid :
      (before : ℕ) → before ≤ now → IsValid before s → IsValid now (evict_expired now s)
  evict_expired-IsValid before le v = record {
    distinct = evict_expired-IsDistinct now s v.distinct;
    ascending =
        unfold evict_expired in
        erase_all-IsAscending _ 0 now s.seen
          (IsAscending-weaken 0 0 before now s.seen (omega arith) le v.ascending);
    bounded = unfold evict_expired in omega (arith, length-evict_expired now s);
    room = unfold evict_expired in v.room;
  }

  oldest_of_full : (d : Dict ℕ) → 0 < length d → (k : String) × (oldest d ≡ some k)
  unfolding oldest
  oldest_of_full [] h = absurd (omega arith)
  oldest_of_full (e ∷ d) h = (min_from e d, refl)

  pub admit-IsValid : IsValid now s → lookup id s.seen ≡ none → IsValid now (admit now id s).1
  unfolding admit
  admit-IsValid v new = elim (Bool-cases (leb s.max_size (length s.seen))) [
    | inl full ↦
        let (k, e) = oldest_of_full s.seen (ground (arith, v.room)) in
        let d = erase k s.seen in
        let gone : lookup id d ≡ none = ground (arith, lookup-erase k id s.seen) in
        rw (full, e)
          record {
            distinct = insert-IsDistinct id now d (erase-IsDistinct k s.seen v.distinct);
            ascending =
                insert-IsAscending id 0 now d gone (erase-IsAscending k 0 now s.seen v.ascending);
            bounded = ground (
              arith,
              v.bounded,
              length-insert id now d,
              length-erase k s.seen,
              oldest-contains k s.seen e,
            );
            room = v.room;
          }
    | inr space ↦ rw space record {
      distinct = insert-IsDistinct id now s.seen v.distinct;
      ascending = insert-IsAscending id 0 now s.seen new v.ascending;
      bounded = ground (arith, length-insert id now s.seen);
      room = v.room;
    }
  ]

  admit-ne-none : IsValid now s → (admit now id s).0 ≢ none
  unfolding admit oldest
  admit-ne-none v e = ground (arith, v.room)

pub later :
    (before now : ℕ) (s : MessageDeduplicator) → before ≤ now → IsValid before s → IsValid now s
later before now s le v = record {
  distinct = v.distinct;
  ascending = IsAscending-weaken 0 0 before now s.seen (omega arith) le v.ascending;
  bounded = v.bounded;
  room = v.room;
}

-- A call on a well-formed store whose `max_size` is above 0, at a time that is not before the last one,
-- raises nothing and leaves a well-formed store: ids are distinct, at most `max_size`, in the order of
-- their times.
pub is_duplicate-IsValid :
    (before now : ℕ) (id : String) (s : MessageDeduplicator)
    → before ≤ now
    → IsValid before s
    → IsValid now (is_duplicate now id s).1 × ((is_duplicate now id s).0 ≢ none)
unfolding is_duplicate
is_duplicate-IsValid before now id s le v =
    let s' = evict_expired now s in
    let v' : IsValid now s' = evict_expired-IsValid now id s before le v in
    elim (Bool-cases (id == "")) [
      | inl empty ↦ rw empty (later before now s le v, λ e. cc)
      | inr named ↦ rw named (elim (Bool-cases (contains id s'.seen)) [
        | inl old ↦ rw old (v', λ e. cc)
        | inr new ↦ rw new (admit-IsValid now id s' v' (ground arith), admit-ne-none now id s' v')
      ])
    ]
