-- ===== src/Services/AutoConfirm/Eligible.antt =====
-- Which texts a platform may send for an order that may be confirmed.
use xianyu_manager.Dict.Keys.{mem-keys_where, selects}
use xianyu_manager.Dict.{keys_where, lookup, mem}
use xianyu_manager.Services.AutoConfirm.{
  OrderStatus, check_confirm_eligibility, eligibility, is_confirmable, mapping, normalize_status,
  status_of, unknown,
}
use xianyu_manager.Dict.Sizes.{IsDistinct}
use xianyu_manager.Prelude.{
  ◌==◌, List, Option, String, [], inr, none, refl, some, sym, ◌∷◌, ◌≡◌, Bool-cases, eq_iff, inl,
}
use xianyu_manager.Text.{lower, strip}

abbrev pub confirmable_names : List String
confirmable_names =
    "delivered" ∷ "tradefinished" ∷ "trade_finished" ∷ "completed" ∷ "wait_confirm" ∷ "waitconfirm"
    ∷ []

mapping-IsDistinct : IsDistinct mapping
unfolding lookup
mapping-IsDistinct = (
  refl,
  (
    refl,
    (
      refl,
      (
        refl,
        (
          refl,
          (
            refl,
            (refl, (refl, (refl, (refl, (refl, (refl, (refl, (refl, (refl, (refl, tt)))))))))),
          ),
        ),
      ),
    ),
  ),
)

names_of_confirmable : keys_where (λ _ s. is_confirmable s) mapping ≡ confirmable_names
unfolding keys_where is_confirmable
names_of_confirmable = refl

is_confirmable-status_of :
    (raw : String) → is_confirmable (status_of raw) ≡ mem raw confirmable_names
unfolding status_of is_confirmable
is_confirmable-status_of raw =
    rw
      (
        sym names_of_confirmable,
        mem-keys_where (λ _ s. is_confirmable s) raw mapping mapping-IsDistinct,
      )
      (by_lookup (lookup raw mapping))
  where
    by_lookup :
        (found : Option OrderStatus)
        → is_confirmable (elim found [ some status ↦ status | none ↦ unknown ])
          ≡ selects (λ _ s. is_confirmable s) raw found
    by_lookup none = refl
    by_lookup (some s) = refl

-- An order with a status in words may be confirmed exactly if the words, in lower case and without the
-- space around them, are one of the six names of delivered, waiting and completed orders; and the
-- answer names the order and the status that the words mean.
pub check_confirm_eligibility_iff :
    (order_id raw : String)
    → let answer = check_confirm_eligibility order_id (inr raw) in
      (answer.confirmable ≡ mem (strip (lower raw)) confirmable_names)
      × (answer.order_id ≡ order_id)
      × (answer.status ≡ normalize_status (some raw))
unfolding check_confirm_eligibility eligibility normalize_status is_confirmable lower strip mem
check_confirm_eligibility_iff order_id raw = (
  elim (Bool-cases (raw == "")) [
    | inl e ↦ rw ((eq_iff raw "").0 e) refl
    | inr e ↦ rw e (is_confirmable-status_of (strip (lower raw)))
  ],
  refl,
  refl,
)
