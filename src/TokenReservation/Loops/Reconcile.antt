-- ===== src/TokenReservation/Loops/Reconcile.antt =====
-- The retry loop of `reconcile_reservation`: it commits at most once, ends well only behind a commit or
-- at a completed record, and never reaches the panic behind it.
use internal_ai_gateway.Base.{
  Bool, if◌then◌else◌, ℕ, zero, suc, ◌+◌, ◌<◌, ◌≡◌, refl, Bool-cases, Result-cases, true, false,
  List, some, Text, Result, ok, err, inl, inr, ltb, arith, ◌⊎◌, ◌∙◌, ap, ◌≢◌,
}
use internal_ai_gateway.Base.Actions.{◌>>=◌}
use internal_ai_gateway.TokenUsage.{usage_key}
use internal_ai_gateway.Services.{
  CancellationReason, TransactWriteItem, TransactWriteItemsError, transaction_canceled_exception,
  unhandled, SdkError, service_error, dispatch_failure, Services,
}
use internal_ai_gateway.Services.Documented.{Documented, Applied, Same}
use internal_ai_gateway.Services.Atomic.{Same-refl, Same-trans, AtMostOnce, AtMostOnce-Same}
use internal_ai_gateway.TokenReservation.{
  TokenReservationManager, pause, reconcile_attempts, reservation_is_completed,
}
use internal_ai_gateway.TokenReservation.Writes.{
  ReservationReconciliation, TokenReservationError, write_failed, unreachable,
}
use internal_ai_gateway.TokenReservation.Failures.{ReconciliationFailure, reconciliation_failure}
use internal_ai_gateway.TokenReservation.Loops.{IsPrivate, IsQuiet, pause-seen, pause-Same}

retry_canceled :
    (e : SdkError TransactWriteItemsError)
    → reconciliation_failure e ≡ ReconciliationFailure.retry
    → (reasons : List CancellationReason) × (e
        ≡ service_error (transaction_canceled_exception reasons))
unfolding reconciliation_failure
retry_canceled (service_error (transaction_canceled_exception reasons)) h = (reasons, refl)
retry_canceled (service_error unhandled) h = cc
retry_canceled dispatch_failure h = cc

verify_canceled :
    (e : SdkError TransactWriteItemsError)
    → reconciliation_failure e ≡ ReconciliationFailure.verify_completed
    → (reasons : List CancellationReason) × (e
        ≡ service_error (transaction_canceled_exception reasons))
unfolding reconciliation_failure
verify_canceled (service_error (transaction_canceled_exception reasons)) h = (reasons, refl)
verify_canceled (service_error unhandled) h = cc
verify_canceled dispatch_failure h = cc

ReconciliationFailure-cases :
    (f : ReconciliationFailure)
    → (f ≡ ReconciliationFailure.retry)
      ⊎ (f ≡ ReconciliationFailure.verify_completed)
      ⊎ (f ≡ ReconciliationFailure.write_failed)
ReconciliationFailure-cases f = ground arith

module _ (sv : Services) (manager : TokenReservationManager) (left attempt : ℕ)
    (r : ReservationReconciliation) (ws : List TransactWriteItem) (a : sv.State) where
  abbrev sent : Result (SdkError TransactWriteItemsError) (Unit {0}) × sv.State
  sent = sv.transact_write_items (some r.completion_token) ws a

  abbrev verified : Result TokenReservationError Bool × sv.State
  verified = reservation_is_completed sv manager r.user_id r.reservation_window sent.1

  -- What follows the reading.
  abbrev answer :
      Result TokenReservationError Bool × sv.State
      → Result TokenReservationError (Unit {0}) × sv.State
  answer v = elim v.0 [ ok x ↦ (if x then ok tt else err write_failed, v.1) | err e ↦ (err e, v.1) ]

  -- The reading fails in one way only.
  verified_err : (x : TokenReservationError) → verified.0 ≡ err x → x ≡ write_failed
  unfolding reservation_is_completed
  verified_err x e = ground arith

  -- A round of the loop by its outcome.
  reconcile_round :
      (P : Result TokenReservationError (Unit {0}) × sv.State → Type 0)
      → (sent.0 ≡ ok tt → P (ok tt, sent.1))
      → ((reasons : List CancellationReason)
          → sent.0 ≡ err (service_error (transaction_canceled_exception reasons))
          → attempt + 1 < 4
          → P (reconcile_attempts sv manager left (attempt + 1) r ws (pause sv attempt sent.1)))
      → ((reasons : List CancellationReason)
          → sent.0 ≡ err (service_error (transaction_canceled_exception reasons))
          → verified.0 ≡ ok true
          → P (ok tt, verified.1))
      → ((reasons : List CancellationReason)
          → sent.0 ≡ err (service_error (transaction_canceled_exception reasons))
          → P (err write_failed, verified.1))
      → ((source : SdkError TransactWriteItemsError)
          → sent.0 ≡ err source
          → P (err write_failed, sent.1))
      → P (reconcile_attempts sv manager (suc left) attempt r ws a)
  unfolding reconcile_attempts
  reconcile_round P committed again completed open_still failed = elim (Result-cases sent.0) [
    | inl (u, q) ↦ rw (q, reconcile_attempts) (committed q)
    | inr (source, q) ↦ elim (ReconciliationFailure-cases (reconciliation_failure source)) [
      | inl f ↦ elim (Bool-cases (ltb (attempt + 1) 4)) [
        | inl h ↦
            let (reasons, e) = retry_canceled source f in
            rw (q, f, h, reconcile_attempts) (again reasons (q ∙ ap err e) (ground arith))
        | inr h ↦ rw (q, f, h, reconcile_attempts) (failed source q)
      ]
      | inr (inl f) ↦
          let (reasons, e) = verify_canceled source f in
          rw (q, f, reconcile_attempts) (settled reasons (q ∙ ap err e) (Result-cases verified.0))
      | inr (inr f) ↦ rw (q, f, reconcile_attempts) (failed source q)
    ]
  ]
    where
      settled :
          (reasons : List CancellationReason)
          → sent.0 ≡ err (service_error (transaction_canceled_exception reasons))
          → ((x : Bool) × (verified.0 ≡ ok x))
            ⊎ ((x : TokenReservationError) × (verified.0 ≡ err x))
          → P (answer verified)
      settled reasons q (inl (true, v)) = rw v (completed reasons q v)
      settled reasons q (inl (false, v)) = rw v (open_still reasons q)
      settled reasons q (inr (x, v)) = rw (v, verified_err x v) (open_still reasons q)

module _ (sv : Services) (doc : Documented sv) (manager : TokenReservationManager) where
  reservation_is_completed_keeps :
      (user window : Text) (a : sv.State)
      → Same doc.view a (reservation_is_completed sv manager user window a).1
  unfolding reservation_is_completed
  reservation_is_completed_keeps user window a =
      elim (Result-cases (sv.get_item manager.table_name (usage_key user window) a).0) [
        | inl (x, q) ↦
            rw (q, reservation_is_completed, ◌>>=◌)
              (doc.get_item_keeps manager.table_name (usage_key user window) a)
        | inr (x, q) ↦
            rw (q, reservation_is_completed, ◌>>=◌)
              (doc.get_item_keeps manager.table_name (usage_key user window) a)
      ]

  -- Where no other client acts meanwhile, the loop applies its transaction once or not at all,
  -- whatever it answers.
  pub reconcile_attempts-AtMostOnce :
      (left attempt : ℕ) (r : ReservationReconciliation) (ws : List TransactWriteItem)
      (a : sv.State)
      → IsQuiet sv doc
      → AtMostOnce doc.view ws a (reconcile_attempts sv manager left attempt r ws a).1
  unfolding reconcile_attempts
  reconcile_attempts-AtMostOnce zero attempt r ws a quiet = inl (Same-refl doc.view a)
  reconcile_attempts-AtMostOnce (suc left) attempt r ws a quiet =
      reconcile_round sv manager left attempt r ws a (λ x. AtMostOnce doc.view ws a x.1)
        (λ q. doc.atomic (some r.completion_token) ws a)
        (λ reasons q h.
          AtMostOnce-Same doc.view ws
            (Same-trans doc.view (doc.canceled _ ws reasons a q).0
              (pause-Same sv doc attempt _ quiet))
            (reconcile_attempts-AtMostOnce left (attempt + 1) r ws
              (pause sv attempt (sv.transact_write_items (some r.completion_token) ws a).1) quiet))
        (λ reasons q v. inl (unchanged reasons q)) (λ reasons q. inl (unchanged reasons q))
        (λ source q. doc.atomic (some r.completion_token) ws a)
    where
      unchanged :
          (reasons : List CancellationReason)
          → (sv.transact_write_items (some r.completion_token) ws a).0
            ≡ err (service_error (transaction_canceled_exception reasons))
          → Same doc.view a (verified sv manager left attempt r ws a).1
      unchanged reasons q =
          Same-trans doc.view (doc.canceled _ ws reasons a q).0
            (reservation_is_completed_keeps r.user_id r.reservation_window _)

  -- The loop always returns before its rounds run out: the panic behind it is never reached.
  pub reconcile_attempts-ne-unreachable :
      (left attempt : ℕ) (r : ReservationReconciliation) (ws : List TransactWriteItem)
      (a : sv.State)
      → 0 < left
      → attempt + left ≡ 4
      → (reconcile_attempts sv manager left attempt r ws a).0 ≢ err unreachable
  reconcile_attempts-ne-unreachable zero attempt r ws a pos sum = absurd (omega arith)
  reconcile_attempts-ne-unreachable (suc left) attempt r ws a pos sum =
      reconcile_round sv manager left attempt r ws a (λ x. x.0 ≢ err unreachable) (λ q e. cc)
        (λ reasons q h.
          reconcile_attempts-ne-unreachable left (attempt + 1) r ws
            (pause sv attempt (sv.transact_write_items (some r.completion_token) ws a).1)
            (omega arith) (omega arith))
        (λ reasons q v e. cc) (λ reasons q e. cc) (λ source q e. cc)

  -- The loop ends well behind a commit under its fresh token, or where it has read a completed record.
  pub reconcile_attempts_ok :
      (left attempt : ℕ) (r : ReservationReconciliation) (ws : List TransactWriteItem)
      (a : sv.State)
      → IsPrivate sv doc r.completion_token
      → doc.view.seen a r.completion_token ≡ false
      → (reconcile_attempts sv manager left attempt r ws a).0 ≡ ok tt
      → ((a₀ : sv.State) × Applied doc.view ws a₀
            (reconcile_attempts sv manager left attempt r ws a).1)
        ⊎ ((a₀ : sv.State) × Same doc.view a₀ (reconcile_attempts sv manager left attempt r ws a).1
            × ((reservation_is_completed sv manager r.user_id r.reservation_window a₀).0 ≡ ok true))
  unfolding reconcile_attempts
  reconcile_attempts_ok zero attempt r ws a alone fresh = λ e. cc
  reconcile_attempts_ok (suc left) attempt r ws a alone fresh =
      reconcile_round sv manager left attempt r ws a Settled
        (λ q e. inl (a, doc.committed r.completion_token ws a q fresh))
        (λ reasons q h.
          reconcile_attempts_ok left (attempt + 1) r ws
            (pause sv attempt (sv.transact_write_items (some r.completion_token) ws a).1) alone
            (pause-seen sv doc r.completion_token attempt _ alone
              ((doc.canceled _ ws reasons a q).1 r.completion_token ∙ fresh)))
        (λ reasons q v e.
          inr (_, reservation_is_completed_keeps r.user_id r.reservation_window _, v))
        (λ reasons q e. cc) (λ source q e. cc)
    where
      Settled : Result TokenReservationError (Unit {0}) × sv.State → Type 0
      Settled x =
          x.0 ≡ ok tt
          → ((a₀ : sv.State) × Applied doc.view ws a₀ x.1)
            ⊎ ((a₀ : sv.State) × Same doc.view a₀ x.1
                × ((reservation_is_completed sv manager r.user_id r.reservation_window a₀).0
                    ≡ ok true))
