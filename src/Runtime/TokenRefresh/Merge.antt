-- ===== src/Runtime/TokenRefresh/Merge.antt =====
-- Every cookie after a merge.
use xianyu_manager.Runtime.TokenRefresh.{merge_cookies_protected, restore}
use xianyu_manager.Dict.{Dict, lookup, mem, insert}
use xianyu_manager.Prelude.{
  Bool, List, Option, String, [], refl, some, true, ◌∷◌, ◌≡◌, ◌==◌, arith, eq_iff, if◌then◌else◌,
  none, ◌∙◌,
}
use xianyu_manager.Dict.Laws.{lookup-insert}

-- The value of a protected field where it exists, and else another one.
abbrev pub prefer : Bool → Option String → Option String → Option String
prefer true (some v) _ = some v
prefer _ _ o = o

abbrev with_value : String → Dict String → Option String → Dict String
with_value k merged none = merged
with_value k merged (some v) = insert k v merged

restore-lookup :
    (ks : List String) (existing merged : Dict String) (j : String)
    → lookup j (restore ks existing merged)
      ≡ prefer (mem j ks) (lookup j existing) (lookup j merged)
unfolding restore mem
restore-lookup [] existing merged j = refl
restore-lookup (k ∷ ks) existing merged j =
    restore-lookup ks existing (with_value k merged (lookup k existing)) j
    ∙ one-lookup (lookup k existing) refl
  where
    one-lookup :
        (o : Option String)
        → lookup k existing ≡ o
        → prefer (mem j ks) (lookup j existing) (lookup j (with_value k merged o))
          ≡ prefer (if k == j then true else mem j ks) (lookup j existing) (lookup j merged)
    one-lookup none h = ground (arith, eq_iff k j)
    one-lookup (some v) h = ground (arith, eq_iff k j, lookup-insert k j v merged)

-- After a merge a protected field has the value that it had before, if it had one; and every other
-- cookie is that of the incoming ones, so that one which they do not have is gone.
pub merge_cookies_protected-lookup :
    (existing incoming : Dict String) (protected_fields : List String) (j : String)
    → lookup j (merge_cookies_protected existing incoming protected_fields)
      ≡ prefer (mem j protected_fields) (lookup j existing) (lookup j incoming)
unfolding merge_cookies_protected
merge_cookies_protected-lookup existing incoming protected_fields j =
    restore-lookup protected_fields existing incoming j
