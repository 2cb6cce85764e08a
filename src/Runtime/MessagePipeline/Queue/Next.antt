-- ===== src/Runtime/MessagePipeline/Queue/Next.antt =====
-- The message that is handled next.
use xianyu_manager.Auth.Login.{answer}
use xianyu_manager.Runtime.Dedupe.{is_duplicate}
use xianyu_manager.Runtime.MessagePipeline.{ParsedMessage}
use xianyu_manager.Runtime.MessagePipeline.Queue.Order.{IsIncreasing, IsTaken, take_least-IsTaken}
use xianyu_manager.Runtime.MessagePipeline.Queue.{
  Entry, MessagePipeline, after_dedupe, dequeue, process, process_next, take_least, timed_out,
  after_dequeue,
}
use xianyu_manager.Prelude.{
  ◌==◌, Bool, Bool-cases, List, Option, [], false, if◌then◌else◌, inl, inr, none, refl, some, subst,
  sym, ℕ, ◌∷◌, ◌≡◌, ◌⊎◌, ◌&&◌, ◌++◌, ap, arith, length, length-append, ltb, ◌∙◌, ◌≤◌,
}
use xianyu_manager.Runtime.MessagePipeline.Queue.Validity.{IsValid, IsQueued, IsQueued-without}

dequeue-cases :
    (p : MessagePipeline)
    → IsValid p
    → ((p.queue ≡ []) × (dequeue p ≡ (none, p)))
      ⊎ ((e : Entry) × (rest : List Entry) × (dequeue p ≡ (some e, record p { queue = rest }))
          × IsTaken (e, rest) p.queue)
unfolding dequeue
dequeue-cases p h = by_queue p.queue h.0.0
  where
    by_queue :
        (q : List Entry)
        → IsIncreasing 0 q
        → ((q ≡ [])
            × (elim q as (λ _. Option Entry × MessagePipeline) [
              | [] ↦ (none, p)
              | e ∷ es ↦ (some (take_least e es).0, record p { queue = (take_least e es).1 })
            ]
                ≡ (none, p)))
          ⊎ ((e : Entry) × (rest : List Entry) × (elim q as (λ _. Option Entry × MessagePipeline) [
            | [] ↦ (none, p)
            | e ∷ es ↦ (some (take_least e es).0, record p { queue = (take_least e es).1 })
          ]
                ≡ (some e, record p { queue = rest }))
              × IsTaken (e, rest) q)
    by_queue [] _ = inl (refl, refl)
    by_queue (e ∷ es) inc =
        inr ((take_least e es).0, (take_least e es).1, refl, take_least-IsTaken 0 e es inc)

-- The answer of the deduplicator about a message, which it is not asked for without an id.
abbrev pub verdict : ℕ → ParsedMessage → MessagePipeline → Option Bool
verdict now m p =
    if m.message_id == "" then some false else (is_duplicate now m.message_id p.deduplicator).0

process-verdict :
    (succeeds : ParsedMessage → Bool) (now : ℕ) (e : Entry) (p : MessagePipeline)
    → ((process succeeds now e p).0 ≡ after_dedupe succeeds e.message (verdict now e.message p))
      × ((process succeeds now e p).1.queue ≡ p.queue)
unfolding process
process-verdict succeeds now e p = elim (Bool-cases (e.message.message_id == "")) [
  | inl b ↦ rw b (refl, refl)
  | inr b ↦ rw b (refl, refl)
]

-- The entry that is taken, what is answered about its message, and the queue that is left.
abbrev pub IsNext : (ParsedMessage → Bool) → ℕ → Entry → MessagePipeline → Type 0
IsNext succeeds now e p =
    IsTaken (e, (process_next succeeds now p).1.queue) p.queue
    × ((process_next succeeds now p).0 ≡ after_dedupe succeeds e.message (verdict now e.message p))

shorter :
    (before : List Entry) (e : Entry) (after q rest : List Entry)
    → q ≡ before ++ e ∷ after
    → rest ≡ before ++ after
    → length rest ≤ length q
shorter before e after q rest f g =
    rw (f, g) (omega (arith, length-append before after, length-append before (e ∷ after)))

bound_without :
    (size : ℕ) (q rest : List Entry)
    → length rest ≤ length q
    → (ltb 0 size && ltb size (length q)) ≡ false
    → (ltb 0 size && ltb size (length rest)) ≡ false
bound_without size q rest le h = ground arith

module _ (succeeds : ParsedMessage → Bool) (now : ℕ) where
  process_next-none :
      (p p' : MessagePipeline)
      → dequeue p ≡ (none, p')
      → process_next succeeds now p ≡ (timed_out, p')
  unfolding process_next after_dequeue
  process_next-none p p' d = ap (after_dequeue succeeds now) d

  process_next-some :
      (p p' : MessagePipeline) (e : Entry)
      → dequeue p ≡ (some e, p')
      → process_next succeeds now p ≡ process succeeds now e p'
  unfolding process_next after_dequeue
  process_next-some p p' e d = ap (after_dequeue succeeds now) d

  -- On a valid pipeline, with a queue that is not empty, the message that is taken is more urgent than
  -- all that came before it and at least as urgent as all that came after it, and the queue keeps the
  -- others in their order; the message is handled unless the deduplicator answers that it was seen, or
  -- fails. An empty queue times out and nothing changes.
  pub process_next-IsNext :
      (p : MessagePipeline)
      → IsValid p
      → ((p.queue ≡ []) × (process_next succeeds now p ≡ (timed_out, p)))
        ⊎ ((e : Entry) × IsNext succeeds now e p)
  process_next-IsNext p h = elim (dequeue-cases p h) [
    | inl (q, d) ↦ inl (q, process_next-none p p d)
    | inr (e, rest, d, taken) ↦
        let left : MessagePipeline = record p { queue = rest } in
        let (answer, queue) = process-verdict succeeds now e left in
        let r = process_next-some p left e d in
        inr (
          e,
          (
            subst (λ q. IsTaken (e, q) p.queue) (sym (ap (λ x. x.1.queue) r ∙ queue)) taken,
            ap (λ x. x.0) r ∙ answer,
          ),
        )
  ]

  process-IsValid :
      (e : Entry) (p : MessagePipeline) → IsValid p → IsValid (process succeeds now e p).1
  unfolding process
  process-IsValid e p h = elim (Bool-cases (e.message.message_id == "")) [
    | inl b ↦ rw b h
    | inr b ↦ rw b h
  ]

  pub process_next-IsValid :
      (p : MessagePipeline) → IsValid p → IsValid (process_next succeeds now p).1
  process_next-IsValid p h = elim (dequeue-cases p h) [
    | inl (q, d) ↦ rw (process_next-none p p d) h
    | inr (e, rest, d, (before, after, f, g, u)) ↦
        rw (process_next-some p (record p { queue = rest }) e d) (
          process-IsValid e (record p { queue = rest })
            (
              rw g (
                  IsQueued-without p.queue_counter before e after
                    (subst (λ q. IsQueued p.queue_counter q) f h.0)),
              bound_without p.max_queue_size p.queue rest (shorter before e after p.queue rest f g)
                  h.1,
              h.2,
            ))
  ]
