-- ===== src/Runtime/Dedupe/Eviction.antt =====
-- What the store holds after the expired entries are dropped.
use xianyu_manager.Prelude.{
  ℕ, ◌≤◌, ◌+◌, String, ◌≡◌, refl, true, none, some, [], ◌∷◌, arith, ◌⊎◌, eq_iff, if◌then◌else◌, ltb,
  length, inl, inr, Bool-cases, ◌<◌, ◌≢◌,
}
use xianyu_manager.Dict.{Dict, lookup, contains}
use xianyu_manager.Dict.Sizes.{IsDistinct, erase_all-IsDistinct, length-erase_all_le}
use xianyu_manager.Dict.Keys.{lookup-erase_where}
use xianyu_manager.Runtime.Dedupe.{MessageDeduplicator, is_expired, evict_expired, min_from, oldest}

module _ (now : ℕ) (s : MessageDeduplicator) where
  pub evict_expired-IsDistinct : IsDistinct s.seen → IsDistinct (evict_expired now s).seen
  unfolding evict_expired
  evict_expired-IsDistinct h = erase_all-IsDistinct _ s.seen h

  pub length-evict_expired : length (evict_expired now s).seen ≤ length s.seen
  unfolding evict_expired
  length-evict_expired = length-erase_all_le _ s.seen

  -- An entry is found after the eviction exactly if it was there and is within the window.
  pub lookup-evict_expired :
      (k : String)
      → IsDistinct s.seen
      → lookup k (evict_expired now s).seen ≡ elim (lookup k s.seen) [
        | none ↦ none
        | some t ↦ if ltb (t + s.ttl) now then none else some t
      ]
  unfolding evict_expired
  lookup-evict_expired k h = ground (arith, lookup-erase_where (is_expired now s.ttl) k s.seen h)

-- The oldest entry of a store is one of its keys.
min_from-contains :
    (k : String) (t : ℕ) (d : Dict ℕ)
    → (min_from (k, t) d ≡ k) ⊎ (contains (min_from (k, t) d) d ≡ true)
unfolding min_from lookup
min_from-contains k t [] = inl refl
min_from-contains k t ((j, u) ∷ d) = elim (Bool-cases (ltb u t)) [
  | inl less ↦ ground (arith, min_from-contains j u d, eq_iff j (min_from (j, u) d))
  | inr more ↦ ground (arith, min_from-contains k t d, eq_iff j (min_from (k, t) d))
]

pub oldest-contains : (k : String) (d : Dict ℕ) → oldest d ≡ some k → contains k d ≡ true
unfolding oldest lookup
oldest-contains k [] h = absurd (cc)
oldest-contains k ((j, u) ∷ d) h = ground (arith, min_from-contains j u d, eq_iff j k)

pub oldest-ne-none : (d : Dict ℕ) → 0 < length d → oldest d ≢ none
unfolding oldest
oldest-ne-none [] h e = omega arith
oldest-ne-none (x ∷ d) h e = cc
