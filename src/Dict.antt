-- ===== src/Dict.antt =====
-- Python's `dict` with text keys, as its entries in insertion order.
pub mod Laws
pub mod Sizes
pub mod Keys
use xianyu_manager.Prelude.{
  ℕ, String, Bool, true, false, Option, none, some, List, [], ◌∷◌, ◌==◌, if◌then◌else◌,
}

abbrev pub Dict {ℓ} : Type ℓ → Type ℓ
Dict V = List (String × V)

abbrev pub is_some {ℓ} : {A : Type ℓ} → Option A → Bool
is_some none = false
is_some (some _) = true

module _ {ℓ} {V : Type ℓ} where
  -- `d.get(k)`
  unfoldable pub lookup : String → Dict V → Option V
  lookup k [] = none
  lookup k ((j, v) ∷ d) = if j == k then some v else lookup k d

  -- `k in d`
  abbrev pub contains : String → Dict V → Bool
  contains k d = is_some (lookup k d)

  -- `d[k] = v`: a known key keeps its place.
  unfoldable pub insert : String → V → Dict V → Dict V
  insert k v [] = (k, v) ∷ []
  insert k v ((j, w) ∷ d) = if j == k then (j, v) ∷ d else (j, w) ∷ insert k v d

  -- `del d[k]` and `d.pop(k, None)`.
  unfoldable pub erase : String → Dict V → Dict V
  erase k [] = []
  erase k ((j, v) ∷ d) = let rest = erase k d in if j == k then rest else (j, v) ∷ rest

  -- `[k for k, v in d.items() if p(k, v)]`
  unfoldable pub keys_where : (String → V → Bool) → Dict V → List String
  keys_where p [] = []
  keys_where p ((j, v) ∷ d) = let rest = keys_where p d in if p j v then j ∷ rest else rest

  -- `for k in ks: del d[k]`
  unfoldable pub erase_all : List String → Dict V → Dict V
  erase_all [] d = d
  erase_all (k ∷ ks) d = erase_all ks (erase k d)

-- `k in ks`, for a list or a set of texts.
unfoldable pub mem : String → List String → Bool
mem k [] = false
mem k (j ∷ ks) = if j == k then true else mem k ks
