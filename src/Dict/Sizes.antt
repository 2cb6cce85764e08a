-- ===== src/Dict/Sizes.antt =====
-- Distinct keys, and the number of entries after each change of a `dict`.
use xianyu_manager.Prelude.{
  ◌+◌, ◌≤◌, String, ◌≡◌, refl, true, none, List, [], ◌∷◌, arith, eq_iff, if◌then◌else◌, length,
}
use xianyu_manager.Dict.{Dict, lookup, insert, erase, erase_all, contains}
use xianyu_manager.Dict.Laws.{lookup-insert, lookup-erase}

-- No key stands twice: what Python's `dict` guarantees.
abbrev pub IsDistinct {ℓ} : {V : Type ℓ} → Dict V → Type ℓ
IsDistinct [] = Unit
IsDistinct ((k, v) ∷ d) = (lookup k d ≡ none) × IsDistinct d

module _ {ℓ} {V : Type ℓ} where
  pub insert-IsDistinct :
      (k : String) (v : V) (d : Dict V) → IsDistinct d → IsDistinct (insert k v d)
  unfolding insert lookup
  insert-IsDistinct k v [] h = (refl, tt)
  insert-IsDistinct k v ((j, w) ∷ d) h =
      ground (arith, insert-IsDistinct k v d h.1, lookup-insert k j v d, eq_iff k j, eq_iff j k)

  pub erase-IsDistinct : (k : String) (d : Dict V) → IsDistinct d → IsDistinct (erase k d)
  unfolding erase
  erase-IsDistinct k [] h = tt
  erase-IsDistinct k ((j, w) ∷ d) h = ground (arith, erase-IsDistinct k d h.1, lookup-erase k j d)

  pub erase_all-IsDistinct :
      (ks : List String) (d : Dict V) → IsDistinct d → IsDistinct (erase_all ks d)
  unfolding erase_all
  erase_all-IsDistinct [] d h = h
  erase_all-IsDistinct (k ∷ ks) d h = erase_all-IsDistinct ks (erase k d) (erase-IsDistinct k d h)

  pub length-insert :
      (k : String) (v : V) (d : Dict V)
      → length (insert k v d) ≡ (if contains k d then length d else length d + 1)
  unfolding insert lookup
  length-insert k v [] = omega arith
  length-insert k v ((j, w) ∷ d) = ground (arith, length-insert k v d)

  pub length-erase_le : (k : String) (d : Dict V) → length (erase k d) ≤ length d
  unfolding erase
  length-erase_le k [] = omega arith
  length-erase_le k ((j, w) ∷ d) = ground (arith, length-erase_le k d)

  pub length-erase :
      (k : String) (d : Dict V) → contains k d ≡ true → length (erase k d) + 1 ≤ length d
  unfolding erase lookup
  length-erase k [] h = absurd (cc)
  length-erase k ((j, w) ∷ d) h = ground (arith, length-erase k d, length-erase_le k d)

  pub length-erase_all_le : (ks : List String) (d : Dict V) → length (erase_all ks d) ≤ length d
  unfolding erase_all
  length-erase_all_le [] d = omega arith
  length-erase_all_le (k ∷ ks) d =
      omega (arith, length-erase_all_le ks (erase k d), length-erase_le k d)
