-- ===== src/TokenReservation/Worker.antt =====
-- services/proxy/src/token_reconciliation.rs: the worker that settles queued jobs. A log line is left
-- out; the cancellation between two messages is the list of messages that are still taken.
use internal_ai_gateway.Base.{
  ℕ, ◌≡◌, false, map_err-ok, List, [], ◌∷◌, Option, none, some, Text, Result, ok, err, Result-cases,
  Option-cases, inl, inr, ◌⊎◌,
}
use mathlib.Core.List.{Mem}
use internal_ai_gateway.Base.Actions.{◌>>=◌}
use internal_ai_gateway.Services.{Services, Message}
use internal_ai_gateway.Services.Documented.{Documented, Same}
use internal_ai_gateway.TokenReconciliation.{TokenReconciliationJob, delete_job, enqueue}
use internal_ai_gateway.TokenReservation.{
  TokenReservationManager, process_reconciliation, reconcile_durably,
}
use internal_ai_gateway.TokenUsage.{usage_key}
use internal_ai_gateway.TokenUsage.Markers.{IsRecorded, record_reconciliation-IsRecorded}
use internal_ai_gateway.TokenReservation.Writes.{
  TokenReservationError, usage, ReservationReconciliation, reservation_status_completed,
}
use internal_ai_gateway.TokenReservation.Loops.{IsPrivate, IsQuiet}
use internal_ai_gateway.TokenReservation.Settlements.{AreDistinct, Settled, HasStatus}
use internal_ai_gateway.TokenReservation.Reconcile.{reconcile_settles_once}

abbrev job_reconciliation :
    Option ℕ → Text → Text → Text → ℕ → Text → Text → ReservationReconciliation
job_reconciliation actual completion daily window budget user weekly = record {
  actual_tokens = actual;
  completion_token = completion;
  daily_window = daily;
  reservation_window = window;
  token_budget = budget;
  user_id = user;
  weekly_window = weekly;
}

module _ (sv : Services) (manager : TokenReservationManager) where
  -- A job that was settled is taken off the queue.
  unfoldable pub acknowledge :
      Message → Result TokenReservationError (Unit {0}) × sv.State → sv.State
  acknowledge message (err error, b) = b
  acknowledge message (ok _, b) = elim message.receipt_handle [
    | none ↦ b
    | some receipt_handle ↦ (delete_job sv manager.queue_url receipt_handle b).1
  ]

  unfoldable pub process_job : Message → Option TokenReconciliationJob → sv.State → sv.State
  unfolding acknowledge
  process_job message none a = a
  process_job message (some job) a = acknowledge message (process_reconciliation sv manager job a)

  unfoldable pub process_message : Message → sv.State → sv.State
  unfolding process_job
  process_message message a = elim message.body [
    | none ↦ a
    | some body ↦ process_job message (manager.json.from_json body) a
  ]

  unfoldable pub process_messages : List Message → sv.State → sv.State
  unfolding process_message
  process_messages [] a = a
  process_messages (message ∷ messages) a = process_messages messages (process_message message a)

  module _ (doc : Documented sv) where
    -- A job whose tokens are fresh, as they are when `reconcile_durably` is called for a reservation.
    abbrev pub IsFresh : TokenReconciliationJob → sv.State → Type 0
    IsFresh (TokenReconciliationJob.reservation actual completion daily window budget user weekly)
          a =
        AreDistinct (job_reconciliation actual completion daily window budget user weekly)
        × IsPrivate sv doc completion
        × (doc.view.seen a completion ≡ false)
    IsFresh (TokenReconciliationJob.usage job_id occurred_at token_count user_id) a =
        doc.view.seen a job_id ≡ false

    -- What the settlement of a job does to the table, unless it was done before. A usage of no tokens does
    -- nothing.
    abbrev pub IsProcessed : TokenReconciliationJob → sv.State → sv.State → Type 0
    IsProcessed
          (TokenReconciliationJob.reservation actual completion daily window budget user weekly) a
          b =
        (Same doc.view a b
          × HasStatus reservation_status_completed
              (doc.view.item a manager.table_name (usage_key user window)))
        ⊎ Settled doc.view manager.table_name
            (job_reconciliation actual completion daily window budget user weekly) a b
    IsProcessed (TokenReconciliationJob.usage job_id occurred_at token_count user_id) a b =
        IsRecorded sv doc manager.token_usage_checker job_id user_id token_count occurred_at a b

    process_reconciliation-IsProcessed :
        (job : TokenReconciliationJob) (a : sv.State)
        → IsQuiet sv doc
        → IsFresh job a
        → (process_reconciliation sv manager job a).0 ≡ ok tt
        → IsProcessed job a (process_reconciliation sv manager job a).1
    unfolding process_reconciliation
    process_reconciliation-IsProcessed
          (TokenReconciliationJob.reservation actual completion daily window budget user weekly) a
          quiet (distinct, alone, fresh) h =
        reconcile_settles_once sv doc manager
          (job_reconciliation actual completion daily window budget user weekly) a distinct quiet
          alone fresh h
    process_reconciliation-IsProcessed
          (TokenReconciliationJob.usage job_id occurred_at token_count user_id) a quiet fresh h =
        record_reconciliation-IsRecorded sv doc manager.token_usage_checker job_id user_id
          token_count occurred_at a fresh (map_err-ok usage _ tt h)

    -- Where `reconcile_durably` answers that all is well for a job whose tokens are fresh, while no other
    -- client acts, no usage is lost: the table has gone through the settlement of the job, or that was
    -- done before, or the JSON of the job is in the queue, where the worker reads the same job back.
    pub reconcile_durably_ok :
        (job : TokenReconciliationJob) (a : sv.State)
        → IsQuiet sv doc
        → IsFresh job a
        → (reconcile_durably sv manager job a).0 ≡ ok tt
        → IsProcessed job a (reconcile_durably sv manager job a).1
          ⊎ ((body : Text) × Mem body
                (doc.view.queued (reconcile_durably sv manager job a).1 manager.queue_url)
              × (manager.json.from_json body ≡ some job))
    unfolding reconcile_durably enqueue
    reconcile_durably_ok job a quiet fresh =
        elim (Result-cases (process_reconciliation sv manager job a).0) [
          | inl (u, q) ↦
              rw (q, reconcile_durably)
                (λ _. inl (process_reconciliation-IsProcessed job a quiet fresh q))
          | inr (e, q) ↦ elim (Option-cases (manager.json.to_json job)) [
            | inl j ↦ rw (q, j, reconcile_durably, enqueue, ◌>>=◌) (λ h. cc)
            | inr (body, j) ↦
                elim (Result-cases
                  (sv.send_message manager.queue_url body
                    (process_reconciliation sv manager job a).1).0) [
                      | inl (u, s) ↦
                          rw (q, j, s, reconcile_durably, enqueue, ◌>>=◌)
                            (λ h. inr (
                              body,
                              doc.sent manager.queue_url body _ s,
                              manager.json.from_json-to_json job body j,
                            ))
                      | inr (x, s) ↦ rw (q, j, s, reconcile_durably, enqueue, ◌>>=◌) (λ h. cc)
                    ]
          ]
        ]
