-- ===== src/TokenReservation/Failures.antt =====
-- services/proxy/src/token_reservation.rs: what a failed transaction means.
use internal_ai_gateway.Base.{
  Bool, false, ◌||◌, List, none, some, Text, codes, text_eq, get_elem?, take, any, if◌then◌else◌,
}
use internal_ai_gateway.Services.{
  CancellationReason, TransactWriteItemsError, transaction_canceled_exception, unhandled, SdkError,
  service_error, dispatch_failure,
}

pub data ReservationFailure : Type 0 where
  limit_exceeded retry write_failed : ReservationFailure

pub data ReconciliationFailure : Type 0 where
  retry verify_completed write_failed : ReconciliationFailure

unfoldable pub has_code : Text → CancellationReason → Bool
has_code code none = false
has_code code (some c) = text_eq c code

unfoldable pub is_transient : CancellationReason → Bool
unfolding has_code
is_transient reason =
    has_code (codes "TransactionConflict") reason
    || (has_code (codes "ProvisionedThroughputExceeded") reason
        || has_code (codes "ThrottlingError") reason)

abbrev pub failed_condition : CancellationReason → Bool
failed_condition = has_code (codes "ConditionalCheckFailed")

unfoldable pub classify_cancellation_reasons : List CancellationReason → ReservationFailure
classify_cancellation_reasons reasons =
    if any failed_condition (take 2 reasons)
    then ReservationFailure.limit_exceeded
    else if any is_transient reasons
    then ReservationFailure.retry
    else ReservationFailure.write_failed

unfoldable pub classify_reservation_error : TransactWriteItemsError → ReservationFailure
unfolding classify_cancellation_reasons
classify_reservation_error (transaction_canceled_exception reasons) =
    classify_cancellation_reasons reasons
classify_reservation_error unhandled = ReservationFailure.write_failed

-- The third reason, of the reservation's own record, if there is one.
abbrev code_at : List CancellationReason → CancellationReason
code_at reasons = elim (get_elem? reasons 2) [ none ↦ none | some reason ↦ reason ]

unfoldable pub classify_reconciliation_error : TransactWriteItemsError → ReconciliationFailure
classify_reconciliation_error (transaction_canceled_exception reasons) =
    if failed_condition (code_at reasons)
    then ReconciliationFailure.verify_completed
    else if any is_transient reasons
    then ReconciliationFailure.retry
    else ReconciliationFailure.write_failed
classify_reconciliation_error unhandled = ReconciliationFailure.write_failed

-- `as_service_error().map(classify).unwrap_or(WriteFailed)`.
unfoldable pub reservation_failure : SdkError TransactWriteItemsError → ReservationFailure
unfolding classify_reservation_error
reservation_failure (service_error e) = classify_reservation_error e
reservation_failure dispatch_failure = ReservationFailure.write_failed

unfoldable pub reconciliation_failure : SdkError TransactWriteItemsError → ReconciliationFailure
unfolding classify_reconciliation_error
reconciliation_failure (service_error e) = classify_reconciliation_error e
reconciliation_failure dispatch_failure = ReconciliationFailure.write_failed
