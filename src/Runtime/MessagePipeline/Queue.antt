-- ===== src/Runtime/MessagePipeline/Queue.antt =====
-- The priority queue, its counter, the handling of the next message, and the workers. A worker is only
-- counted; the lock around the counter is never waited for.
pub mod Order
pub mod Validity
pub mod Next
pub mod Runs
mod Examples
use xianyu_manager.Runtime.AccountRegistry.{count}
use xianyu_manager.Auth.Sessions.Lifetime.{entry}
use xianyu_manager.Auth.Login.{answer}
use xianyu_manager.Prelude.{
  ◌&&◌, ◌+◌, ◌++◌, ◌==◌, ◌==ℕ◌, Bool, List, Option, [], false, if◌then◌else◌, leb, length, ltb, max,
  none, some, true, ◌||◌, ℕ, ◌∷◌,
}
use xianyu_manager.Runtime.MessagePipeline.{ParsedMessage}
use xianyu_manager.Runtime.Dedupe
use xianyu_manager.Runtime.Dedupe.{MessageDeduplicator, clear, is_duplicate}

pub record Entry : Type 0 where
  pub priority : ℕ
  pub counter : ℕ
  pub message : ParsedMessage

-- The entries of the queue in the order in which they were put; a size of 0 is no bound.
pub record MessagePipeline : Type 0 where
  pub deduplicator : MessageDeduplicator
  pub queue : List Entry
  pub queue_counter : ℕ
  pub max_queue_size : ℕ
  pub worker_count : ℕ
  pub running : Bool
  pub workers : ℕ

abbrev pub default_max_queue_size : ℕ
default_max_queue_size = 1000

abbrev pub default_workers : ℕ
default_workers = 1

unfoldable pub init : MessageDeduplicator → ℕ → ℕ → MessagePipeline
init deduplicator max_queue_size worker_count = record {
  deduplicator = deduplicator;
  queue = [];
  queue_counter = 0;
  max_queue_size = max_queue_size;
  worker_count = max 1 worker_count;
  running = false;
  workers = 0;
}

-- The order of the tuples `(priority, counter, message)`, whose counters differ.
unfoldable pub is_less : Entry → Entry → Bool
is_less a b = ltb a.priority b.priority || (a.priority ==ℕ b.priority && ltb a.counter b.counter)

unfoldable pub is_full : MessagePipeline → Bool
is_full p = ltb 0 p.max_queue_size && leb p.max_queue_size (length p.queue)

-- `enqueue` of an event that is parsed: the counter grows even if the queue is full.
unfoldable pub enqueue : ParsedMessage → MessagePipeline → Option ParsedMessage × MessagePipeline
unfolding is_full
enqueue parsed p =
    let counter = p.queue_counter + 1 in
    let entry : Entry = record {
      priority = parsed.queue_priority;
      counter = counter;
      message = parsed;
    } in
    if is_full p
    then (none, record p { queue_counter = counter })
    else (some parsed, record p { queue_counter = counter; queue = p.queue ++ entry ∷ [] })

-- The least of an entry and those of a list, and the entries without it.
unfoldable pub take_least : Entry → List Entry → Entry × List Entry
unfolding is_less
take_least e [] = (e, [])
take_least e (x ∷ xs) =
    let (least, rest) = take_least x xs in
    if is_less least e then (least, e ∷ rest) else (e, x ∷ xs)

-- `_dequeue` with a timeout, as the workers call it; `none` is the timeout on an empty queue. Without one
-- an empty queue waits for an entry.
unfoldable pub dequeue : MessagePipeline → Option Entry × MessagePipeline
unfolding take_least
dequeue p = elim p.queue [
  | [] ↦ (none, p)
  | e ∷ es ↦ let (least, rest) = take_least e es in (some least, record p { queue = rest })
]

-- What `process_next` does: nothing to take, a duplicate, the message handled, or an exception of the
-- handler or of the deduplicator.
pub data Processed : Type 0 where
  timed_out duplicate dedupe_error : Processed
  handled handler_error : ParsedMessage → Processed

-- The answer about a message, from that of the deduplicator; `succeeds` tells whether the handler
-- returns.
unfoldable pub after_dedupe : (ParsedMessage → Bool) → ParsedMessage → Option Bool → Processed
after_dedupe succeeds m none = dedupe_error
after_dedupe succeeds m (some true) = duplicate
after_dedupe succeeds m (some false) = if succeeds m then handled m else handler_error m

-- The handling of an entry, at the time that the deduplicator reads.
unfoldable pub process :
    (ParsedMessage → Bool) → ℕ → Entry → MessagePipeline → Processed × MessagePipeline
unfolding after_dedupe
process succeeds now e p =
    if e.message.message_id == ""
    then (after_dedupe succeeds e.message (some false), p)
    else let (answer, d) = Dedupe.is_duplicate now e.message.message_id p.deduplicator in
      (after_dedupe succeeds e.message answer, record p { deduplicator = d })

-- What follows `_dequeue`.
unfoldable pub after_dequeue :
    (ParsedMessage → Bool) → ℕ → Option Entry × MessagePipeline → Processed × MessagePipeline
unfolding process
after_dequeue succeeds now (none, p) = (timed_out, p)
after_dequeue succeeds now (some e, p) = process succeeds now e p

unfoldable pub process_next :
    (ParsedMessage → Bool) → ℕ → MessagePipeline → Processed × MessagePipeline
unfolding dequeue after_dequeue
process_next succeeds now p = after_dequeue succeeds now (dequeue p)

-- The number of workers: `None` and 0 stand for the one given at the start.
unfoldable pub start_workers : Option ℕ → MessagePipeline → MessagePipeline
start_workers count p =
    let asked : ℕ = elim count [
      | none ↦ p.worker_count
      | some n ↦ if n ==ℕ 0 then p.worker_count else n
    ] in
    if p.running then p else record p { running = true; workers = max 1 asked }

-- The passes of a worker at the given times, until the pipeline stops: an exception of the handler is
-- only logged.
unfoldable pub worker_loop : (ParsedMessage → Bool) → List ℕ → MessagePipeline → MessagePipeline
unfolding process_next
worker_loop succeeds [] p = p
worker_loop succeeds (now ∷ times) p =
    let rest = worker_loop succeeds times (process_next succeeds now p).1 in
    if p.running then rest else p

unfoldable pub stop_workers : MessagePipeline → MessagePipeline
stop_workers p = record p { running = false; workers = 0 }

unfoldable pub clear_dedupe : MessagePipeline → MessagePipeline
clear_dedupe p = record p { deduplicator = Dedupe.clear p.deduplicator }

unfoldable pub qsize : MessagePipeline → ℕ
qsize p = length p.queue
