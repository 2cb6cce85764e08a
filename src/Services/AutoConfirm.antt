-- ===== src/Services/AutoConfirm.antt =====
-- app/services/auto_confirm.py: order statuses, which of them may be confirmed, and which may follow
-- which.
pub mod Traces
pub mod Eligible
mod Examples
use xianyu_manager.Text.{lower, strip}
use xianyu_manager.Dict.{Dict, lookup}
use xianyu_manager.Prelude.{
  ◌==◌, Bool, Option, String, [], false, if◌then◌else◌, inl, inr, none, not, some, true, ◌∷◌, ◌⊎◌,
}
use Prim.Native.String.{◌++◌ as ◌⊕◌}

pub data OrderStatus : Type 0 where
  pending paid shipped delivered wait_confirm completed cancelled unknown : OrderStatus

-- `status.value`
unfoldable pub value : OrderStatus → String
value pending = "pending"
value paid = "paid"
value shipped = "shipped"
value delivered = "delivered"
value wait_confirm = "wait_confirm"
value completed = "completed"
value cancelled = "cancelled"
value unknown = "unknown"

-- `status in CONFIRMABLE_STATUSES`
unfoldable pub is_confirmable : OrderStatus → Bool
is_confirmable delivered = true
is_confirmable wait_confirm = true
is_confirmable completed = true
is_confirmable _ = false

-- `to_status in VALID_TRANSITIONS[from_status]`
unfoldable pub validate_transition : OrderStatus → OrderStatus → Bool
validate_transition pending paid = true
validate_transition pending cancelled = true
validate_transition paid shipped = true
validate_transition paid cancelled = true
validate_transition shipped delivered = true
validate_transition shipped cancelled = true
validate_transition delivered wait_confirm = true
validate_transition delivered completed = true
validate_transition wait_confirm completed = true
validate_transition unknown _ = true
validate_transition _ _ = false

abbrev pub mapping : Dict OrderStatus
mapping =
    ("waitbuyerpay", pending)
    ∷ ("wait_buyer_pay", pending)
    ∷ ("paied", paid)
    ∷ ("paid", paid)
    ∷ ("waitbuyerconfirmgoods", shipped)
    ∷ ("wait_buyer_confirm_goods", shipped)
    ∷ ("delivered", delivered)
    ∷ ("waitsellerdelivergoods", paid)
    ∷ ("tradefinished", completed)
    ∷ ("trade_finished", completed)
    ∷ ("completed", completed)
    ∷ ("wait_confirm", wait_confirm)
    ∷ ("waitconfirm", wait_confirm)
    ∷ ("tradeclosed", cancelled)
    ∷ ("trade_closed", cancelled)
    ∷ ("cancelled", cancelled)
    ∷ []

-- `mapping.get(raw, OrderStatus.UNKNOWN)`
unfoldable pub status_of : String → OrderStatus
unfolding lookup
status_of raw = elim (lookup raw mapping) [ some status ↦ status | none ↦ unknown ]

-- `none` and the empty text have no status.
unfoldable pub normalize_status : Option String → OrderStatus
unfolding status_of lower strip
normalize_status none = unknown
normalize_status (some raw_status) =
    if raw_status == "" then unknown else status_of (strip (lower raw_status))

pub record ConfirmEligibility : Type 0 where
  pub order_id : String
  pub status : OrderStatus
  pub confirmable : Bool
  pub reason : String

unfoldable pub eligibility : String → OrderStatus → ConfirmEligibility
unfolding is_confirmable value
eligibility order_id status =
    let known = "status=" ⊕ value status in
    record {
      order_id = order_id;
      status = status;
      confirmable = is_confirmable status;
      reason =
          if is_confirmable status
          then known
          else known ⊕ " not in confirmable set [completed, delivered, wait_confirm]";
    }

-- The status is an `OrderStatus`, or a text that is normalized.
unfoldable pub check_confirm_eligibility : String → OrderStatus ⊎ String → ConfirmEligibility
unfolding eligibility normalize_status
check_confirm_eligibility order_id (inl status) = eligibility order_id status
check_confirm_eligibility order_id (inr raw) = eligibility order_id (normalize_status (some raw))
