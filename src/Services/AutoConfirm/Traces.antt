-- ===== src/Services/AutoConfirm/Traces.antt =====
-- The histories of an order that the transitions allow.
-- Every step from `s` along the list is a valid transition.
use xianyu_manager.Services.AutoConfirm.{
  OrderStatus, cancelled, completed, delivered, paid, pending, shipped, unknown,
  validate_transition, wait_confirm,
}
use xianyu_manager.Prelude.{
  ◌&&◌, Bool, List, [], arith, inl, inr, refl, sym, true, ◌↔◌, ◌∙◌, ◌∷◌, ◌≡◌, ◌≢◌, ◌⊎◌,
}

unfoldable pub is_trace : OrderStatus → List OrderStatus → Bool
is_trace s [] = true
is_trace s (t ∷ ts) = validate_transition s t && is_trace t ts

unfoldable pub final : OrderStatus → List OrderStatus → OrderStatus
final s [] = s
final s (t ∷ ts) = final t ts

trace-cancelled :
    (us : List OrderStatus) → is_trace cancelled us ≡ true → final cancelled us ≡ cancelled
unfolding is_trace validate_transition final
trace-cancelled [] h = refl
trace-cancelled (t ∷ us) h = ground arith

module _ (us : List OrderStatus) where
  trace-completed : is_trace completed us ≡ true → us ≡ []
  unfolding is_trace validate_transition
  trace-completed h = ground arith

  cancelled-ne-completed : is_trace cancelled us ≡ true → final cancelled us ≢ completed
  cancelled-ne-completed h e = absurd (clash (sym (trace-cancelled us h) ∙ e))
    where
      clash : cancelled ≢ completed
      clash p = ground arith

ends-wait_confirm :
    (ts : List OrderStatus)
    → is_trace wait_confirm ts ≡ true
    → final wait_confirm ts ≡ completed
    → ts ≡ completed ∷ []
unfolding is_trace validate_transition final
ends-wait_confirm [] h e = ground arith
ends-wait_confirm (completed ∷ us) h e = rw (trace-completed us h) refl
ends-wait_confirm (t ∷ us) h e = ground arith

-- The histories of a paid order from its delivery on.
abbrev pub IsConfirmed : List OrderStatus → Type 0
IsConfirmed ts = (ts ≡ completed ∷ []) ⊎ (ts ≡ wait_confirm ∷ completed ∷ [])

ends-delivered :
    (ts : List OrderStatus)
    → is_trace delivered ts ≡ true
    → final delivered ts ≡ completed
    → IsConfirmed ts
unfolding is_trace validate_transition final
ends-delivered [] h e = ground arith
ends-delivered (completed ∷ us) h e = inl (rw (trace-completed us h) refl)
ends-delivered (wait_confirm ∷ us) h e = inr (rw (ends-wait_confirm us h e) refl)
ends-delivered (t ∷ us) h e = ground arith

ends-shipped :
    (ts : List OrderStatus)
    → is_trace shipped ts ≡ true
    → final shipped ts ≡ completed
    → (us : List OrderStatus) × (ts ≡ delivered ∷ us) × IsConfirmed us
unfolding is_trace validate_transition final
ends-shipped [] h e = ground arith
ends-shipped (delivered ∷ us) h e = (us, refl, ends-delivered us h e)
ends-shipped (cancelled ∷ us) h e = absurd (cancelled-ne-completed us h e)
ends-shipped (t ∷ us) h e = ground arith

ends-paid :
    (ts : List OrderStatus)
    → is_trace paid ts ≡ true
    → final paid ts ≡ completed
    → (us : List OrderStatus) × (ts ≡ shipped ∷ delivered ∷ us) × IsConfirmed us
unfolding is_trace validate_transition final
ends-paid [] h e = ground arith
ends-paid (shipped ∷ us) h e = let (vs, p, c) = ends-shipped us h e in (vs, rw p refl, c)
ends-paid (cancelled ∷ us) h e = absurd (cancelled-ne-completed us h e)
ends-paid (t ∷ us) h e = ground arith

-- Valid transitions lead an order from pending to completed in exactly two ways: it is paid, shipped
-- and delivered, in this order, and then completed, at once or after it has waited for the
-- confirmation.
pub validate_transition-completes :
    (ts : List OrderStatus)
    → ((is_trace pending ts ≡ true) × (final pending ts ≡ completed))
      ↔ ((us : List OrderStatus) × (ts ≡ paid ∷ shipped ∷ delivered ∷ us) × IsConfirmed us)
unfolding is_trace validate_transition final
validate_transition-completes ts = (λ h. there ts h.0 h.1, λ h. back h.0 h.1 h.2)
  where
    there :
        (ts : List OrderStatus)
        → is_trace pending ts ≡ true
        → final pending ts ≡ completed
        → (us : List OrderStatus) × (ts ≡ paid ∷ shipped ∷ delivered ∷ us) × IsConfirmed us
    there [] h e = ground arith
    there (paid ∷ us) h e = let (vs, p, c) = ends-paid us h e in (vs, rw p refl, c)
    there (cancelled ∷ us) h e = absurd (cancelled-ne-completed us h e)
    there (t ∷ us) h e = ground arith

    back :
        (us : List OrderStatus)
        → ts ≡ paid ∷ shipped ∷ delivered ∷ us
        → IsConfirmed us
        → (is_trace pending ts ≡ true) × (final pending ts ≡ completed)
    back us p (inl q) = rw (p, q) (refl, refl)
    back us p (inr q) = rw (p, q) (refl, refl)

known_next : (s t : OrderStatus) → s ≢ unknown → validate_transition s t ≡ true → t ≢ unknown
unfolding validate_transition
known_next s t k v = ground arith

and_left : (a b : Bool) → (a && b) ≡ true → a ≡ true
and_left a b h = ground arith

and_right : (a b : Bool) → (a && b) ≡ true → b ≡ true
and_right a b h = ground arith

-- No sequence of valid transitions leads from a known status to an unknown one.
pub validate_transition-keeps_known :
    (s : OrderStatus) (ts : List OrderStatus)
    → s ≢ unknown
    → is_trace s ts ≡ true
    → final s ts ≢ unknown
unfolding is_trace final
validate_transition-keeps_known s [] known h = known
validate_transition-keeps_known s (t ∷ ts) known h =
    validate_transition-keeps_known t ts
      (known_next s t known (and_left (validate_transition s t) (is_trace t ts) h))
      (and_right (validate_transition s t) (is_trace t ts) h)
