-- ===== src/Runtime/MessagePipeline/Queue/Examples.antt =====
-- A queue with an urgent message, and the theorems at it.
use xianyu_manager.Prelude.{List, String, [], none, some, true, ℕ, ◌∷◌, ◌≡◌, ◌⊎◌, refl}
use xianyu_manager.Runtime.MessagePipeline.Queue.Next.{IsNext, process_next-IsNext}
use xianyu_manager.Runtime.MessagePipeline.Queue.Validity.{IsValid}
use xianyu_manager.Runtime.MessagePipeline.Queue.Runs.{
  Op, op_enqueue, op_start, run, apply, run-IsValid,
}
use xianyu_manager.Runtime.MessagePipeline.Queue.{
  MessagePipeline, init, enqueue, Entry, after_dedupe, after_dequeue, dequeue, handled, is_full,
  is_less, process, process_next, start_workers, take_least, timed_out,
}
use xianyu_manager.Runtime.MessagePipeline.{ParsedMessage, unknown}
use xianyu_manager.Runtime.MessagePipeline.Values.{no_fields}
use xianyu_manager.Runtime.Dedupe

abbrev message : String → ℕ → ParsedMessage
message content priority = record {
  message_id = "";
  route = unknown;
  sender_id = "";
  item_id = "";
  order_id = "";
  content = content;
  raw = no_fields;
  queue_priority = priority;
}

abbrev ops : List Op
ops =
    op_start (some 0)
    ∷ op_enqueue (message "a" 2)
    ∷ op_enqueue (message "b" 1)
    ∷ op_enqueue (message "c" 1)
    ∷ []

abbrev start : MessagePipeline
start = init (Dedupe.init 300 1000) 3 2

-- The queue is full, so a fourth message is dropped, and the first of the urgent ones is handled.
full :
    let p = run ops start in
    ((enqueue (message "d" 0) p).0 ≡ none)
    × ((process_next (λ _. true) 5 p).0 ≡ handled (message "b" 1))
    × (p.workers ≡ 2)
unfolding run apply init start_workers enqueue is_full process_next dequeue take_least is_less
    after_dequeue process after_dedupe
full = (refl, refl, refl)

run-IsValid_example : IsValid (run ops (init (Dedupe.init 300 1000) 3 2))
run-IsValid_example = run-IsValid ops (Dedupe.init 300 1000) 3 2

process_next-IsNext_example :
    ((run ops start).queue ≡ [])
      × (process_next (λ _. true) 5 (run ops start) ≡ (timed_out, run ops start))
    ⊎ ((e : Entry) × IsNext (λ _. true) 5 e (run ops start))
process_next-IsNext_example =
    process_next-IsNext (λ _. true) 5 (run ops start) (run-IsValid ops (Dedupe.init 300 1000) 3 2)
