-- ===== src/Runtime/MessagePipeline/Queue/Order.antt =====
-- Which entry leaves the queue.
-- The counters grow along the queue, and are above a bound.
use xianyu_manager.Runtime.MessagePipeline.Queue.{Entry, is_less, take_least}
use xianyu_manager.Prelude.{
  ◌++◌, ◌<◌, All, All-imp, Bool, List, [], ap, arith, false, if◌then◌else◌, refl, true, ℕ, ◌∷◌, ◌≡◌,
  ◌≤◌,
}

abbrev pub IsIncreasing : ℕ → List Entry → Type 0
IsIncreasing n [] = Unit
IsIncreasing n (e ∷ es) = (n < e.counter) × IsIncreasing e.counter es

is_less-priority : (a b : Entry) → is_less a b ≡ true → a.priority ≤ b.priority
unfolding is_less
is_less-priority a b h = ground arith

not-is_less-priority : (a b : Entry) → is_less a b ≡ false → b.priority ≤ a.priority
unfolding is_less
not-is_less-priority a b h = ground arith

is_less-later : (a b : Entry) → is_less a b ≡ true → b.counter < a.counter → a.priority < b.priority
unfolding is_less
is_less-later a b h k = ground arith

-- The choice that `take_least` makes between its entry and the least of the others.
abbrev pick : Bool → Entry × List Entry → Entry → List Entry → Entry × List Entry
pick b found e es = if b then (found.0, e ∷ found.1) else (e, es)

take_least-counter :
    (n : ℕ) (e : Entry) (es : List Entry)
    → IsIncreasing n (e ∷ es)
    → n < (take_least e es).0.counter
unfolding take_least
take_least-counter n e [] h = h.0
take_least-counter n e (x ∷ xs) h =
    by_choice (is_less (take_least x xs).0 e) (omega (arith, take_least-counter e.counter x xs h.1))
  where
    by_choice :
        (b : Bool)
        → n < (take_least x xs).0.counter
        → n < (pick b (take_least x xs) e (x ∷ xs)).0.counter
    by_choice true k = k
    by_choice false k = h.0

-- An entry taken from a queue: the queue around it, more urgent than all before it and at least as
-- urgent as all behind it.
abbrev pub IsFirstUrgent : Entry → List Entry → List Entry → Type 0
IsFirstUrgent e before after =
    All (λ x. e.priority < x.priority) before × All (λ x. e.priority ≤ x.priority) after

abbrev pub IsTaken : Entry × List Entry → List Entry → Type 0
IsTaken (e, rest) es =
    (before : List Entry) × (after : List Entry) × (es ≡ before ++ e ∷ after)
    × (rest ≡ before ++ after)
    × IsFirstUrgent e before after

take_least-le :
    (e : Entry) (es : List Entry) → All (λ x. (take_least e es).0.priority ≤ x.priority) (e ∷ es)
unfolding take_least
take_least-le e [] = (omega arith, tt)
take_least-le e (x ∷ xs) = by_choice (is_less (take_least x xs).0 e) refl (take_least-le x xs)
  where
    by_choice :
        (b : Bool)
        → is_less (take_least x xs).0 e ≡ b
        → All (λ y. (take_least x xs).0.priority ≤ y.priority) (x ∷ xs)
        → All (λ y. (pick b (take_least x xs) e (x ∷ xs)).0.priority ≤ y.priority) (e ∷ x ∷ xs)
    by_choice true k h = (is_less-priority (take_least x xs).0 e k, h)
    by_choice false k h = (
      omega arith,
      All-imp (λ y. (take_least x xs).0.priority ≤ y.priority) (λ y. e.priority ≤ y.priority)
          (x ∷ xs) (λ y le. omega (arith, not-is_less-priority (take_least x xs).0 e k)) h,
    )

pub take_least-IsTaken :
    (n : ℕ) (e : Entry) (es : List Entry)
    → IsIncreasing n (e ∷ es)
    → IsTaken (take_least e es) (e ∷ es)
unfolding take_least
take_least-IsTaken n e [] h = ([], [], refl, refl, (tt, tt))
take_least-IsTaken n e (x ∷ xs) h =
    by_choice (is_less (take_least x xs).0 e) refl (take_least-IsTaken e.counter x xs h.1)
  where
    by_choice :
        (b : Bool)
        → is_less (take_least x xs).0 e ≡ b
        → IsTaken (take_least x xs) (x ∷ xs)
        → IsTaken (pick b (take_least x xs) e (x ∷ xs)) (e ∷ x ∷ xs)
    by_choice true k (before, after, p, q, (f, g)) = (
      e ∷ before,
      after,
      ap (λ es. e ∷ es) p,
      ap (λ es. e ∷ es) q,
      ((is_less-later (take_least x xs).0 e k (take_least-counter e.counter x xs h.1), f), g),
    )
    by_choice false k taken = (
      [],
      x ∷ xs,
      refl,
      refl,
      (
        tt,
        All-imp (λ y. (take_least x xs).0.priority ≤ y.priority) (λ y. e.priority ≤ y.priority)
            (x ∷ xs) (λ y le. omega (arith, not-is_less-priority (take_least x xs).0 e k))
            (take_least-le x xs),
      ),
    )
