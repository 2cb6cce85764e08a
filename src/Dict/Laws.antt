-- ===== src/Dict/Laws.antt =====
-- What a lookup finds after each change of a `dict`.
use xianyu_manager.Prelude.{
  String, ◌≡◌, refl, Bool, true, false, Option, none, some, List, [], ◌∷◌, arith, ◌==◌, eq_iff,
  eq_refl, if◌then◌else◌,
}
use xianyu_manager.Dict.{Dict, lookup, insert, erase, erase_all, mem}

module _ {ℓ} {V : Type ℓ} where
  pub lookup-insert :
      (k j : String) (v : V) (d : Dict V)
      → lookup j (insert k v d) ≡ (if k == j then some v else lookup j d)
  unfolding lookup insert
  lookup-insert k j v [] = refl
  lookup-insert k j v ((i, w) ∷ d) =
      ground (arith, eq_iff k j, eq_iff i k, eq_iff i j, lookup-insert k j v d)

  pub lookup-erase :
      (k j : String) (d : Dict V) → lookup j (erase k d) ≡ (if k == j then none else lookup j d)
  unfolding lookup erase
  lookup-erase k j [] = ground arith
  lookup-erase k j ((i, w) ∷ d) =
      ground (arith, eq_iff k j, eq_iff i k, eq_iff i j, lookup-erase k j d)

  pub lookup-erase_all :
      (ks : List String) (j : String) (d : Dict V)
      → lookup j (erase_all ks d) ≡ (if mem j ks then none else lookup j d)
  unfolding erase_all mem
  lookup-erase_all [] j d = refl
  lookup-erase_all (k ∷ ks) j d =
      ground (arith, lookup-erase_all ks j (erase k d), lookup-erase k j d)

  pub lookup-insert_self : (k : String) (v : V) (d : Dict V) → lookup k (insert k v d) ≡ some v
  lookup-insert_self k v d = simp (lookup-insert, eq_refl)

  pub lookup-erase_self : (k : String) (d : Dict V) → lookup k (erase k d) ≡ none
  lookup-erase_self k d = simp (lookup-erase, eq_refl)

pub ruleset dict_laws = (lookup-insert, lookup-erase, lookup-erase_all, eq_refl)
