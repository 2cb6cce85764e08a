-- ===== src/Runtime/Dedupe.antt =====
-- app/runtime/dedupe.py: the store of message ids that were seen within a time window.
-- A time is a whole number of clock ticks; `ttl` is in ticks too.
pub mod Eviction
pub mod Bounds
pub mod Window
pub mod Kept
pub mod Retention
mod Examples
use xianyu_manager.Prelude.{
  ℕ, ◌+◌, String, Bool, true, false, Option, none, some, List, [], ◌∷◌, ◌==◌, ltb, leb,
  if◌then◌else◌, length,
}
use xianyu_manager.Dict.{Dict, contains, insert, erase, keys_where, erase_all}

pub record MessageDeduplicator : Type 0 where
  pub seen : Dict ℕ
  pub ttl : ℕ
  pub max_size : ℕ

pub init : ℕ → ℕ → MessageDeduplicator
init ttl max_size = record { seen = []; ttl = ttl; max_size = max_size }

abbrev pub is_expired : ℕ → ℕ → String → ℕ → Bool
is_expired now ttl _ seen_at = ltb (seen_at + ttl) now

pub evict_expired : ℕ → MessageDeduplicator → MessageDeduplicator
evict_expired now s =
    let expired = keys_where (is_expired now s.ttl) s.seen in
    record s { seen = erase_all expired s.seen }

-- `min(items, key=...)` from a first candidate on: the first of the least entries.
pub min_from : String × ℕ → Dict ℕ → String
min_from (k, t) [] = k
min_from (k, t) ((j, u) ∷ d) = min_from (if ltb u t then (j, u) else (k, t)) d

-- `min(self._seen.items(), ...)[0]`; `none` is the `ValueError` of `min` on no entries.
pub oldest : Dict ℕ → Option String
unfolding min_from
oldest [] = none
oldest (e ∷ d) = some (min_from e d)

-- `self._seen[message_id] = now`, behind the deletion of the oldest entry of a full store.
pub admit : ℕ → String → MessageDeduplicator → Option Bool × MessageDeduplicator
unfolding oldest
admit now id s =
    if leb s.max_size (length s.seen)
    then elim (oldest s.seen) [
      | none ↦ (none, s)
      | some k ↦ (some false, record s { seen = insert id now (erase k s.seen) })
    ]
    else (some false, record s { seen = insert id now s.seen })

-- `is_duplicate`, at the time that `time.time()` returns; `none` is the `ValueError`.
pub is_duplicate : ℕ → String → MessageDeduplicator → Option Bool × MessageDeduplicator
unfolding evict_expired
is_duplicate now id s =
    if id == ""
    then (some false, s)
    else let s' = evict_expired now s in
      if contains id s'.seen then (some true, s') else admit now id s'

pub clear : MessageDeduplicator → MessageDeduplicator
clear s = record s { seen = [] }

-- A run of calls, each with its time.
pub run : List (ℕ × String) → MessageDeduplicator → MessageDeduplicator
run [] s = s
run ((now, id) ∷ calls) s = run calls (is_duplicate now id s).1
