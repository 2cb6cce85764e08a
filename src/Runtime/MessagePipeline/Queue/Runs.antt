-- ===== src/Runtime/MessagePipeline/Queue/Runs.antt =====
-- What every run of the pipeline keeps.
use xianyu_manager.Runtime.MessagePipeline.Texts.Sizes.{size}
use xianyu_manager.Runtime.AccountRegistry.{count}
use xianyu_manager.Runtime.MessagePipeline.{ParsedMessage}
use xianyu_manager.Runtime.Dedupe.{MessageDeduplicator}
use xianyu_manager.Prelude.{
  Bool, List, Option, [], arith, refl, ℕ, ◌∷◌, ◌==ℕ◌, false, if◌then◌else◌, max, none, some, true,
}
use xianyu_manager.Runtime.MessagePipeline.Queue.Validity.{IsValid, enqueue-IsValid}
use xianyu_manager.Runtime.MessagePipeline.Queue.{
  MessagePipeline, init, clear_dedupe, enqueue, process_next, start_workers, stop_workers,
  worker_loop,
}
use xianyu_manager.Runtime.MessagePipeline.Queue.Next.{process_next-IsValid}

pub data Op : Type 0 where
  op_enqueue : ParsedMessage → Op
  op_process : (ParsedMessage → Bool) → ℕ → Op
  op_work : (ParsedMessage → Bool) → List ℕ → Op
  op_start : Option ℕ → Op
  op_stop op_clear : Op

unfoldable pub apply : Op → MessagePipeline → MessagePipeline
apply (op_enqueue m) p = (enqueue m p).1
apply (op_process succeeds now) p = (process_next succeeds now p).1
apply (op_work succeeds times) p = worker_loop succeeds times p
apply (op_start count) p = start_workers count p
apply op_stop p = stop_workers p
apply op_clear p = clear_dedupe p

unfoldable pub run : List Op → MessagePipeline → MessagePipeline
run [] p = p
run (op ∷ ops) p = run ops (apply op p)

if-IsValid :
    (b : Bool) (p q : MessagePipeline) → IsValid p → IsValid q → IsValid (if b then p else q)
if-IsValid true p q h k = h
if-IsValid false p q h k = k

worker_loop-IsValid :
    (succeeds : ParsedMessage → Bool) (times : List ℕ) (p : MessagePipeline)
    → IsValid p
    → IsValid (worker_loop succeeds times p)
unfolding worker_loop
worker_loop-IsValid succeeds [] p h = h
worker_loop-IsValid succeeds (now ∷ times) p h =
    if-IsValid p.running (worker_loop succeeds times (process_next succeeds now p).1) p
      (worker_loop-IsValid succeeds times (process_next succeeds now p).1
        (process_next-IsValid succeeds now p h))
      h

apply-IsValid : (op : Op) (p : MessagePipeline) → IsValid p → IsValid (apply op p)
unfolding apply start_workers stop_workers clear_dedupe
apply-IsValid (op_enqueue m) p h = enqueue-IsValid m p h
apply-IsValid (op_process succeeds now) p h = process_next-IsValid succeeds now p h
apply-IsValid (op_work succeeds times) p h = worker_loop-IsValid succeeds times p h
apply-IsValid (op_start count) p h = by_state p.running
  where
    started : MessagePipeline
    started = record p {
      running = true;
      workers =
          max 1
            (elim count [ none ↦ p.worker_count | some n ↦ if n ==ℕ 0 then p.worker_count else n ]);
    }

    by_state : (b : Bool) → IsValid (if b then p else started)
    by_state true = h
    by_state false = (h.0, h.1, refl)
apply-IsValid op_stop p h = (h.0, h.1, refl)
apply-IsValid op_clear p h = h

keep-IsValid : (ops : List Op) (p : MessagePipeline) → IsValid p → IsValid (run ops p)
unfolding run
keep-IsValid [] p h = h
keep-IsValid (op ∷ ops) p h = keep-IsValid ops (apply op p) (apply-IsValid op p h)

-- After any sequence of operations on a new pipeline, the queued entries stand in the order in which
-- they came, with counters that grow and are not above the pipeline's and with the priorities of their
-- messages; there are at most max_queue_size of them, if this is not 0; and workers run only while the
-- pipeline does.
pub run-IsValid :
    (ops : List Op) (d : MessageDeduplicator) (size count : ℕ)
    → IsValid (run ops (init d size count))
unfolding init
run-IsValid ops d size count =
    keep-IsValid ops (init d size count) ((tt, tt, tt), ground arith, refl)
