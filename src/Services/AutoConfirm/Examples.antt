-- ===== src/Services/AutoConfirm/Examples.antt =====
-- Statuses as the platform spells them, and the theorems at concrete orders.
use xianyu_manager.Text.{lower, strip}
use xianyu_manager.Dict.{lookup, mem}
use xianyu_manager.Services.AutoConfirm.Eligible.{check_confirm_eligibility_iff, confirmable_names}
use xianyu_manager.Services.AutoConfirm.{
  OrderStatus, check_confirm_eligibility, completed, delivered, eligibility, is_confirmable,
  normalize_status, paid, pending, shipped, status_of, unknown, validate_transition, value,
  wait_confirm,
}
use xianyu_manager.Prelude.{List, [], arith, inl, inr, refl, some, true, ◌↔◌, ◌∷◌, ◌≡◌, ◌≢◌}
use xianyu_manager.Services.AutoConfirm.Traces.{
  IsConfirmed, final, is_trace, validate_transition-completes, validate_transition-keeps_known,
}

spellings :
    (normalize_status (some " Trade_Finished ") ≡ completed)
    × (normalize_status (some "waitSellerDeliverGoods") ≡ paid)
    × (normalize_status (some "refunding") ≡ unknown)
unfolding normalize_status status_of lower strip lookup
spellings = (refl, refl, refl)

refusal :
    (check_confirm_eligibility "7" (inl shipped)).reason
    ≡ "status=shipped not in confirmable set [completed, delivered, wait_confirm]"
unfolding check_confirm_eligibility eligibility is_confirmable value
refusal = refl

abbrev history : List OrderStatus
history = paid ∷ shipped ∷ delivered ∷ wait_confirm ∷ completed ∷ []

validate_transition-completes_example :
    ((is_trace pending history ≡ true) × (final pending history ≡ completed))
    ↔ ((us : List OrderStatus) × (history ≡ paid ∷ shipped ∷ delivered ∷ us) × IsConfirmed us)
validate_transition-completes_example = validate_transition-completes history

validate_transition-keeps_known_example : final pending history ≢ unknown
unfolding is_trace validate_transition
validate_transition-keeps_known_example =
    validate_transition-keeps_known pending history (ground arith) refl

check_confirm_eligibility_iff_example :
    let answer = check_confirm_eligibility "7" (inr " Delivered") in
    (answer.confirmable ≡ mem (strip (lower " Delivered")) confirmable_names)
    × (answer.order_id ≡ "7")
    × (answer.status ≡ normalize_status (some " Delivered"))
check_confirm_eligibility_iff_example = check_confirm_eligibility_iff "7" " Delivered"
