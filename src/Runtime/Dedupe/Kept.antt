-- ===== src/Runtime/Dedupe/Kept.antt =====
-- How long the store keeps an id: the entries behind it grow by one at most at each call.
-- How many entries stand behind that of the key.
use xianyu_manager.Dict.Keys.{mem-keys_where}
use xianyu_manager.Runtime.Dedupe.Eviction.{lookup-evict_expired, oldest-ne-none}
use xianyu_manager.Dict.Laws.{lookup-erase, lookup-insert}
use xianyu_manager.Dict.Sizes.{length-erase_le, length-insert}
use xianyu_manager.Runtime.Dedupe.{
  MessageDeduplicator, admit, evict_expired, is_duplicate, is_expired, oldest,
}
use xianyu_manager.Runtime.Dedupe.Bounds.{
  IsAscending, IsValid, admit-IsValid, evict_expired-IsValid, later, oldest-first,
}
use xianyu_manager.Dict.{Dict, contains, erase, erase_all, insert, keys_where, lookup, mem}
use xianyu_manager.Prelude.{
  ◌+◌, ◌<◌, ◌==◌, Bool-cases, List, Option-cases, String, [], arith, eq_iff, eq_refl, false,
  if◌then◌else◌, inl, inr, leb, length, none, some, true, ℕ, ◌∷◌, ◌≡◌, ◌≤◌,
}

abbrev pub behind : String → Dict ℕ → ℕ
behind m [] = 0
behind m ((k, _) ∷ d) = if k == m then length d else behind m d

behind-erase :
    (k m : String) (d : Dict ℕ)
    → (k == m) ≡ false
    → contains m d ≡ true
    → behind m (erase k d) ≤ behind m d
unfolding erase lookup
behind-erase k m [] ne h = omega arith
behind-erase k m ((j, t) ∷ d) ne h =
    ground (arith, behind-erase k m d, length-erase_le k d, eq_iff k m, eq_iff j m, eq_iff j k)

behind-erase_all :
    (ks : List String) (m : String) (d : Dict ℕ)
    → mem m ks ≡ false
    → contains m d ≡ true
    → behind m (erase_all ks d) ≤ behind m d
unfolding erase_all mem
behind-erase_all [] m d ne h = omega arith
behind-erase_all (k ∷ ks) m d ne h =
    ground (arith, behind-erase_all ks m (erase k d), behind-erase k m d, lookup-erase k m d)

behind-insert :
    (k m : String) (t : ℕ) (d : Dict ℕ)
    → (k == m) ≡ false
    → contains m d ≡ true
    → behind m (insert k t d) ≤ behind m d + 1
unfolding insert lookup
behind-insert k m t [] ne h = absurd (cc)
behind-insert k m t ((j, u) ∷ d) ne h =
    ground (arith, behind-insert k m t d, length-insert k t d, eq_iff k m, eq_iff j m, eq_iff j k)

pub behind-insert_self :
    (k : String) (t : ℕ) (d : Dict ℕ) → lookup k d ≡ none → behind k (insert k t d) ≡ 0
unfolding insert lookup
behind-insert_self k t [] h = simp eq_refl
behind-insert_self k t ((j, u) ∷ d) h = ground (arith, behind-insert_self k t d, eq_iff j k)

-- What is known of an id that was recorded at `t`, with at most `n` entries behind it.
pub record IsKept (m : String) (t n now : ℕ) (s : MessageDeduplicator) : Type 0 where
  pub valid : IsValid now s
  pub found : lookup m s.seen ≡ some t
  pub near : behind m s.seen ≤ n

-- The entry that a full store drops is not the one looked for, unless all others are behind it.
oldest-ne :
    (m k : String) (now : ℕ) (d : Dict ℕ)
    → IsAscending 0 now d
    → oldest d ≡ some k
    → behind m d + 1 < length d
    → (k == m) ≡ false
oldest-ne m k now [] h e lt = absurd (omega arith)
oldest-ne m k now ((j, u) ∷ d) h e lt = ground (arith, oldest-first j u 0 now d h)

admit-IsKept :
    (m id : String) (t n now : ℕ) (s : MessageDeduplicator)
    → IsKept m t n now s
    → lookup id s.seen ≡ none
    → n + 1 < s.max_size
    → IsKept m t (n + 1) now (admit now id s).1
unfolding admit
admit-IsKept m id t n now s k new lt =
    let other : (id == m) ≡ false = ground (arith, eq_iff id m, k.found) in
    let has : contains m s.seen ≡ true = ground (arith, k.found) in
    elim (Bool-cases (leb s.max_size (length s.seen))) [
      | inl full ↦ elim (Option-cases (oldest s.seen)) [
        | inl empty ↦ absurd (oldest-ne-none s.seen (ground (arith, k.valid.room)) empty)
        | inr (j, e) ↦
            let ne : (j == m) ≡ false =
              oldest-ne m j now s.seen k.valid.ascending e (ground arith) in
            let d = erase j s.seen in
            record {
              valid = admit-IsValid now id s k.valid new;
              found =
                  rw (full, e) (ground (arith, lookup-insert id m now d, lookup-erase j m s.seen));
              near =
                  rw (full, e)
                    (ground (
                      arith,
                      lookup-erase j m s.seen,
                      behind-insert id m now d,
                      behind-erase j m s.seen,
                    ));
            }
      ]
      | inr space ↦ record {
        valid = admit-IsValid now id s k.valid new;
        found = rw space (ground (arith, lookup-insert id m now s.seen));
        near = rw space (ground (arith, behind-insert id m now s.seen));
      }
    ]

evict_expired-IsKept :
    (m : String) (t n before now : ℕ) (s : MessageDeduplicator)
    → before ≤ now
    → now ≤ t + s.ttl
    → IsKept m t n before s
    → IsKept m t n now (evict_expired now s)
evict_expired-IsKept m t n before now s le fresh k = record {
  valid = evict_expired-IsValid now m s before le k.valid;
  found = ground (arith, lookup-evict_expired now s m k.valid.distinct);
  near =
      unfold evict_expired in
      ground (
        arith,
        behind-erase_all (keys_where (is_expired now s.ttl) s.seen) m s.seen,
        mem-keys_where (is_expired now s.ttl) m s.seen k.valid.distinct,
      );
}

later-IsKept :
    (m : String) (t n before now : ℕ) (s : MessageDeduplicator)
    → before ≤ now
    → IsKept m t n before s
    → IsKept m t (n + 1) now s
later-IsKept m t n before now s le k = record {
  valid = later before now s le k.valid;
  found = k.found;
  near = omega (arith, k.near);
}

pub is_duplicate-IsKept :
    (m id : String) (t n before now : ℕ) (s : MessageDeduplicator)
    → before ≤ now
    → now ≤ t + s.ttl
    → n + 1 < s.max_size
    → IsKept m t n before s
    → IsKept m t (n + 1) now (is_duplicate now id s).1
unfolding is_duplicate
is_duplicate-IsKept m id t n before now s le fresh lt k =
    let s' = evict_expired now s in
    let k' : IsKept m t n now s' = evict_expired-IsKept m t n before now s le fresh k in
    elim (Bool-cases (id == "")) [
      | inl empty ↦ rw empty (later-IsKept m t n before now s le k)
      | inr named ↦ rw named (elim (Bool-cases (contains id s'.seen)) [
        | inl old ↦ rw old (later-IsKept m t n now now s' (omega arith) k')
        | inr new ↦
            rw new (admit-IsKept m id t n now s' k' (ground arith) (unfold evict_expired in lt))
      ])
    ]
