-- ===== src/Runtime/MessagePipeline/Queue/Validity.antt =====
-- The invariant of the pipeline, and that putting and taking an entry keep it.
-- Each entry has the priority of its message, and a counter that is not above the pipeline's.
use xianyu_manager.Runtime.MessagePipeline.{ParsedMessage}
use xianyu_manager.Runtime.MessagePipeline.Queue.Order.{IsIncreasing}
use xianyu_manager.Runtime.MessagePipeline.Queue.{Entry, MessagePipeline, enqueue, is_full}
use xianyu_manager.Prelude.{
  ◌&&◌, ◌++◌, ◌<◌, ◌==ℕ◌, All, List, [], arith, false, length, ltb, true, ◌||◌, ℕ, ◌∷◌, ◌≡◌, ◌≤◌,
  ◌+◌, All-imp, Bool, Option, if◌then◌else◌, length-append, none, refl, some,
}

abbrev pub IsQueued : ℕ → List Entry → Type 0
IsQueued n es =
    IsIncreasing 0 es
    × All (λ e. e.counter ≤ n) es
    × All (λ e. e.priority ≡ e.message.queue_priority) es

-- The queue is in the order of its counters and within its bound, and workers run only while the
-- pipeline does.
abbrev pub IsValid : MessagePipeline → Type 0
IsValid p =
    IsQueued p.queue_counter p.queue
    × ((ltb 0 p.max_queue_size && ltb p.max_queue_size (length p.queue)) ≡ false)
    × ((p.running || (p.workers ==ℕ 0)) ≡ true)

IsIncreasing-snoc :
    (k n : ℕ) (es : List Entry) (e : Entry)
    → k ≤ n
    → IsIncreasing k es
    → All (λ x. x.counter ≤ n) es
    → n < e.counter
    → IsIncreasing k (es ++ e ∷ [])
IsIncreasing-snoc k n [] e le h b l = (omega arith, tt)
IsIncreasing-snoc k n (x ∷ xs) e le h b l = (h.0, IsIncreasing-snoc x.counter n xs e b.0 h.1 b.1 l)

All-snoc {ℓ κ} :
    {A : Type ℓ} (P : A → Type κ) (xs : List A) (y : A) → All P xs → P y → All P (xs ++ y ∷ [])
All-snoc P [] y h p = (p, tt)
All-snoc P (x ∷ xs) y h p = (h.0, All-snoc P xs y h.1 p)

IsIncreasing-weaken : (k n : ℕ) (es : List Entry) → k ≤ n → IsIncreasing n es → IsIncreasing k es
IsIncreasing-weaken k n [] le h = tt
IsIncreasing-weaken k n (e ∷ es) le h = (omega arith, h.1)

IsIncreasing-without :
    (k : ℕ) (before : List Entry) (e : Entry) (after : List Entry)
    → IsIncreasing k (before ++ e ∷ after)
    → IsIncreasing k (before ++ after)
IsIncreasing-without k [] e after h = IsIncreasing-weaken k e.counter after (omega arith) h.1
IsIncreasing-without k (x ∷ xs) e after h = (h.0, IsIncreasing-without x.counter xs e after h.1)

All-without {ℓ κ} :
    {A : Type ℓ} (P : A → Type κ) (before : List A) (e : A) (after : List A)
    → All P (before ++ e ∷ after)
    → P e × All P (before ++ after)
All-without P [] e after h = h
All-without P (x ∷ xs) e after h = let (a, b) = All-without P xs e after h.1 in (a, (h.0, b))

pub enqueue-IsValid :
    (m : ParsedMessage) (p : MessagePipeline) → IsValid p → IsValid (enqueue m p).1
unfolding enqueue is_full
enqueue-IsValid m p h = by_choice (is_full p) refl
  where
    counter : ℕ
    counter = p.queue_counter + 1

    entry : Entry
    entry = record { priority = m.queue_priority; counter = counter; message = m }

    below : All (λ e. e.counter ≤ counter) p.queue
    below =
        All-imp (λ e. e.counter ≤ p.queue_counter) (λ e. e.counter ≤ counter) p.queue
          (λ e le. omega arith) h.0.1

    left : Bool → Option ParsedMessage × MessagePipeline
    left b =
        if b
        then (none, record p { queue_counter = counter })
        else (some m, record p { queue_counter = counter; queue = p.queue ++ entry ∷ [] })

    by_choice : (b : Bool) → is_full p ≡ b → IsValid (left b).1
    by_choice true e = ((h.0.0, below, h.0.2), h.1, h.2)
    by_choice false e = (
      (
        IsIncreasing-snoc 0 p.queue_counter p.queue entry (omega arith) h.0.0 h.0.1 (omega arith),
        All-snoc (λ x. x.counter ≤ counter) p.queue entry below (omega arith),
        All-snoc (λ x. x.priority ≡ x.message.queue_priority) p.queue entry h.0.2 refl,
      ),
      ground (arith, length-append p.queue (entry ∷ [])),
      h.2,
    )

-- A queue without one of its entries.
pub IsQueued-without :
    (n : ℕ) (before : List Entry) (e : Entry) (after : List Entry)
    → IsQueued n (before ++ e ∷ after)
    → IsQueued n (before ++ after)
IsQueued-without n before e after h = (
  IsIncreasing-without 0 before e after h.0,
  (All-without (λ x. x.counter ≤ n) before e after h.1).1,
  (All-without (λ x. x.priority ≡ x.message.queue_priority) before e after h.2).1,
)
