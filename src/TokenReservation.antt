-- ===== src/TokenReservation.antt =====
-- services/proxy/src/token_reservation.rs: `TokenReservationManager`, which holds tokens for a request
-- before it goes to the provider and settles the hold afterwards.
pub mod Failures
pub mod Writes
pub mod Effects
pub mod Settlements
pub mod Reconcile
pub mod Cycle
pub mod Worker
pub mod Reserve
pub mod Holds
pub mod Limits
pub mod Loops
pub mod Inversion
use internal_ai_gateway.Base.{
  ℕ, zero, suc, ◌+◌, ◌*◌, ◌^◌, Bool, true, false, ◌&&◌, ◌++◌, List, [], ◌∷◌, Option, none, some,
  Text, codes, lookup, ltb, ◌==◌, if◌then◌else◌, Result, ok, err, is_none, bind_option, map_err,
}
use internal_ai_gateway.Base.Actions.{Action, ◌>>=◌, ◌>>◌, pure, run, map_err_of}
use internal_ai_gateway.EngineerAuth.{AuthenticatedEngineer}
use internal_ai_gateway.Services.{AttributeValue, s, Item, TransactWriteItem, Services}
use internal_ai_gateway.Services.Documented.{value_eq}
use internal_ai_gateway.TokenUsage.{
  TokenUsageChecker, usage_key, current_epoch_seconds, record_reconciliation,
}
use internal_ai_gateway.TokenUsage.Windows.{daily_usage_window, weekly_usage_window}
use internal_ai_gateway.TokenReconciliation.{TokenReconciliationJob, JobJson, enqueue}
use Failures.{
  ReservationFailure, ReconciliationFailure, reservation_failure, reconciliation_failure,
}
use Writes.{
  TokenReservationError, usage, ReservationReconciliation, reservation_writes,
  reconciliation_writes, reservation_status_attribute, reservation_status_completed,
  reservation_window_of, invalid_budget, limit_exceeded, write_failed, unreachable, queue_failed,
}

pub record TokenReservationManager : Type 0 where
  pub table_name : Text
  pub queue_url : Text
  pub json : JobJson
  pub token_usage_checker : TokenUsageChecker

-- The manager that a reservation refers to is an argument of its operations.
pub record TokenReservation : Type 0 where
  pub completion_token : Text
  pub daily_window : Text
  pub engineer : AuthenticatedEngineer
  pub occurred_at : ℕ
  pub reservation_window : Option Text
  pub token_budget : ℕ
  pub weekly_window : Text

abbrev pub reservation_transaction_attempts : ℕ
reservation_transaction_attempts = 4

abbrev reservation_retry_base_delay_milliseconds : ℕ
reservation_retry_base_delay_milliseconds = 25

-- Exponential back-off: a base that doubles with each attempt, and up to as much jitter.
unfoldable pub reservation_retry_delay : ℕ → (ℕ → ℕ) → ℕ
reservation_retry_delay attempt jitter =
    let base_delay = reservation_retry_base_delay_milliseconds * 2 ^ attempt in
    base_delay + jitter base_delay

unfoldable pub untracked : AuthenticatedEngineer → ℕ → ℕ → Text → TokenReservation
untracked engineer token_budget occurred_at completion_token = record {
  completion_token = completion_token;
  daily_window = [];
  engineer = engineer;
  occurred_at = occurred_at;
  reservation_window = none;
  token_budget = token_budget;
  weekly_window = [];
}

-- The jitter is random, up to the base delay.
unfoldable pub pause : (sv : Services) → ℕ → sv.State → sv.State
unfolding reservation_retry_delay
pause sv attempt a =
    let (jitter, b) = sv.random (reservation_retry_base_delay_milliseconds * 2 ^ attempt) a in
    sv.sleep (reservation_retry_delay attempt (λ _. jitter)) b

abbrev job_with : TokenReservation → Option ℕ → Option Text → Option TokenReconciliationJob
job_with r actual_tokens (some reservation_window) = some (
    TokenReconciliationJob.reservation actual_tokens r.completion_token r.daily_window
      reservation_window r.token_budget r.engineer.user_id r.weekly_window)
job_with r none none = none
job_with r (some token_count) none =
    some
      (TokenReconciliationJob.usage r.completion_token r.occurred_at token_count r.engineer.user_id)

-- The job of a reservation; none where nothing was held and no usage is known.
unfoldable pub job_of : TokenReservation → Option ℕ → Option TokenReconciliationJob
job_of r actual_tokens = job_with r actual_tokens r.reservation_window

module _ (sv : Services) (manager : TokenReservationManager) where
  open sv use {State}

  -- `for attempt in 0..RESERVATION_TRANSACTION_ATTEMPTS`, with the rounds left. A loop that ran to its
  -- end would go on as if the transaction had committed.
  unfoldable pub reserve_attempts :
      ℕ → ℕ → Text → List TransactWriteItem → Action State TokenReservationError (Unit {0})
  unfolding pause
  reserve_attempts zero attempt reservation_id writes a = (ok tt, a)
  reserve_attempts (suc left) attempt reservation_id writes a =
      let (result, b) = sv.transact_write_items (some reservation_id) writes a in
      elim result [
        | ok _ ↦ (ok tt, b)
        | err source ↦ elim (reservation_failure source) [
          | ReservationFailure.limit_exceeded ↦ (err limit_exceeded, b)
          | ReservationFailure.retry ↦ elim (ltb (attempt + 1) reservation_transaction_attempts) [
            | true ↦ reserve_attempts left (attempt + 1) reservation_id writes (pause sv attempt b)
            | false ↦ (err write_failed, b)
          ]
          | ReservationFailure.write_failed ↦ (err write_failed, b)
        ]
      ]

  unfoldable pub reserve_tracked :
      AuthenticatedEngineer → ℕ → ℕ → Action State TokenReservationError TokenReservation
  reserve_tracked engineer token_budget now = do
    reservation_id ← run sv.new_uuid
    completion_token ← run sv.new_uuid
    writes ←
        pure (reservation_writes sv manager.table_name engineer token_budget now reservation_id)
    reserve_attempts reservation_transaction_attempts 0 reservation_id writes
    pure (
        ok (record {
          completion_token = completion_token;
          daily_window = daily_usage_window now;
          engineer = engineer;
          occurred_at = now;
          reservation_window = some (reservation_window_of reservation_id);
          token_budget = token_budget;
          weekly_window = weekly_usage_window now;
        }))

  unfoldable pub reserve_untracked :
      AuthenticatedEngineer → ℕ → ℕ → Action State TokenReservationError TokenReservation
  unfolding untracked
  reserve_untracked engineer token_budget now = do
    completion_token ← run sv.new_uuid
    pure (ok (untracked engineer token_budget now completion_token))

  unfoldable pub reserve_at :
      AuthenticatedEngineer → ℕ → Action State TokenReservationError TokenReservation
  reserve_at engineer token_budget = do
    now ← map_err_of usage (current_epoch_seconds sv)
    if is_none engineer.daily_token_limit && is_none engineer.weekly_token_limit
        then reserve_untracked engineer token_budget now
        else reserve_tracked engineer token_budget now

  unfoldable pub reserve :
      AuthenticatedEngineer → ℕ → Action State TokenReservationError TokenReservation
  reserve engineer token_budget =
      if token_budget == 0 then pure (err invalid_budget) else reserve_at engineer token_budget

  abbrev pub is_completed : Option AttributeValue → Bool
  is_completed none = false
  is_completed (some status) = value_eq status (s reservation_status_completed)

  unfoldable pub reservation_is_completed : Text → Text → Action State TokenReservationError Bool
  reservation_is_completed user_id reservation_window = do
    output ←
        map_err_of (λ _. write_failed)
          (sv.get_item manager.table_name (usage_key user_id reservation_window))
    pure (ok (is_completed (bind_option output (lookup reservation_status_attribute))))

  unfoldable pub reconcile_attempts :
      ℕ
      → ℕ
      → ReservationReconciliation
      → List TransactWriteItem
      → Action State TokenReservationError (Unit {0})
  reconcile_attempts zero attempt r writes a = (err unreachable, a)
  reconcile_attempts (suc left) attempt r writes a =
      let (result, b) = sv.transact_write_items (some r.completion_token) writes a in
      elim result [
        | ok _ ↦ (ok tt, b)
        | err source ↦ elim (reconciliation_failure source) [
          | ReconciliationFailure.verify_completed ↦
              (do
                completed ← reservation_is_completed r.user_id r.reservation_window
                pure (if completed then ok tt else err write_failed))
                b
          | ReconciliationFailure.retry ↦
              elim (ltb (attempt + 1) reservation_transaction_attempts) [
                | true ↦ reconcile_attempts left (attempt + 1) r writes (pause sv attempt b)
                | false ↦ (err write_failed, b)
              ]
          | ReconciliationFailure.write_failed ↦ (err write_failed, b)
        ]
      ]

  unfoldable pub reconcile_reservation :
      ReservationReconciliation → Action State TokenReservationError (Unit {0})
  reconcile_reservation r = do
    writes ← pure (reconciliation_writes sv manager.table_name r)
    reconcile_attempts reservation_transaction_attempts 0 r writes

  unfoldable pub process_reconciliation :
      TokenReconciliationJob → Action State TokenReservationError (Unit {0})
  process_reconciliation
        (TokenReconciliationJob.reservation actual completion daily window budget user weekly) =
      reconcile_reservation (record {
        actual_tokens = actual;
        completion_token = completion;
        daily_window = daily;
        reservation_window = window;
        token_budget = budget;
        user_id = user;
        weekly_window = weekly;
      })
  process_reconciliation (TokenReconciliationJob.usage job_id occurred_at token_count user_id) =
      map_err_of usage (
        record_reconciliation sv manager.token_usage_checker job_id user_id token_count occurred_at)

  -- What cannot be settled at once is queued.
  unfoldable pub reconcile_durably :
      TokenReconciliationJob → Action State TokenReservationError (Unit {0})
  reconcile_durably job a =
      let (result, b) = process_reconciliation job a in
      elim result [
        | ok _ ↦ (ok tt, b)
        | err reconciliation_error ↦
            map_err_of (λ _. queue_failed reconciliation_error)
              (enqueue sv manager.json manager.queue_url job) b
      ]

  unfoldable pub reconcile :
      TokenReservation → Option ℕ → Action State TokenReservationError (Unit {0})
  reconcile r actual_tokens = elim (job_of r actual_tokens) [
    | none ↦ pure (ok tt)
    | some job ↦ reconcile_durably job
  ]
