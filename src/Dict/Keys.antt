-- ===== src/Dict/Keys.antt =====
-- The keys that a comprehension over `d.items()` selects.
use xianyu_manager.Prelude.{
  String, ◌≡◌, refl, Bool, false, Option, none, some, [], ◌∷◌, arith, eq_iff, if◌then◌else◌,
}
use xianyu_manager.Dict.{Dict, lookup, keys_where, mem, erase_all}
use xianyu_manager.Dict.Laws.{lookup-erase_all}
use xianyu_manager.Dict.Sizes.{IsDistinct}

-- An entry that is found and selected.
abbrev pub selects {ℓ} : {V : Type ℓ} → (String → V → Bool) → String → Option V → Bool
selects p k none = false
selects p k (some v) = p k v

-- What is left of a lookup when the selected entries are deleted.
abbrev pub unless {ℓ} : {V : Type ℓ} → (String → V → Bool) → String → Option V → Option V
unless p k none = none
unless p k (some v) = if p k v then none else some v

module _ {ℓ} {V : Type ℓ} (p : String → V → Bool) where
  pub mem-keys_where :
      (j : String) (d : Dict V) → IsDistinct d → mem j (keys_where p d) ≡ selects p j (lookup j d)
  unfolding mem keys_where lookup
  mem-keys_where j [] h = refl
  mem-keys_where j ((i, v) ∷ d) h = ground (arith, mem-keys_where j d h.1, eq_iff i j)

  pub lookup-erase_where :
      (j : String) (d : Dict V)
      → IsDistinct d
      → lookup j (erase_all (keys_where p d) d) ≡ unless p j (lookup j d)
  lookup-erase_where j d h =
      ground (arith, lookup-erase_all (keys_where p d) j d, mem-keys_where j d h)
