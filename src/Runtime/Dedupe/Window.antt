-- ===== src/Runtime/Dedupe/Window.antt =====
-- What the store answers: exact recognition of ids within the window, and how long an id is kept.
use xianyu_manager.Runtime.Dedupe.Eviction.{lookup-evict_expired}
use xianyu_manager.Runtime.Dedupe.{MessageDeduplicator, admit, is_duplicate}
use xianyu_manager.Runtime.Dedupe.Bounds.{IsValid}
use xianyu_manager.Dict.{lookup}
use xianyu_manager.Prelude.{ℕ, ◌+◌, String, arith, eq_iff, some, true, ◌↔◌, ◌≡◌, ◌≢◌, ◌≤◌}

-- A call with an id that is not empty answers "duplicate" exactly if the store holds the id and at
-- most `ttl` ticks have passed since it was recorded.
pub is_duplicate_iff :
    (before now : ℕ) (id : String) (s : MessageDeduplicator)
    → before ≤ now
    → IsValid before s
    → id ≢ ""
    → ((is_duplicate now id s).0 ≡ some true)
      ↔ ((t : ℕ) × (lookup id s.seen ≡ some t) × (now ≤ t + s.ttl))
unfolding is_duplicate admit
is_duplicate_iff before now id s le v ne = (
  λ h. ground (arith, eq_iff id "", lookup-evict_expired now s id v.distinct),
  λ (t, found, fresh). ground (arith, eq_iff id "", lookup-evict_expired now s id v.distinct),
)
