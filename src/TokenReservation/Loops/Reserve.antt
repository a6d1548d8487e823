-- ===== src/TokenReservation/Loops/Reserve.antt =====
-- The retry loop of `reserve`: it ends well only behind a commit, and commits at most once.
use internal_ai_gateway.Base.{
  ℕ, zero, suc, ◌+◌, ◌<◌, ◌≡◌, refl, Bool-cases, Result-cases, true, false, List, some, Text,
  Result, ok, err, inl, inr, ltb, arith, ◌⊎◌, ◌∙◌, ap,
}
use internal_ai_gateway.Services.{
  CancellationReason, TransactWriteItem, TransactWriteItemsError, transaction_canceled_exception,
  unhandled, SdkError, service_error, dispatch_failure, Services,
}
use internal_ai_gateway.Services.Documented.{Documented, Applied}
use internal_ai_gateway.Services.Atomic.{Same-refl, Same-trans, AtMostOnce, AtMostOnce-Same}
use internal_ai_gateway.TokenReservation.{TokenReservationManager, pause, reserve_attempts}
use internal_ai_gateway.TokenReservation.Writes.{
  TokenReservationError, limit_exceeded, write_failed,
}
use internal_ai_gateway.TokenReservation.Failures.{ReservationFailure, reservation_failure}
use internal_ai_gateway.TokenReservation.Loops.{IsPrivate, IsQuiet, pause-seen, pause-Same}

-- Only a cancelled transaction is tried again.
retry_canceled :
    (e : SdkError TransactWriteItemsError)
    → reservation_failure e ≡ ReservationFailure.retry
    → (reasons : List CancellationReason) × (e
        ≡ service_error (transaction_canceled_exception reasons))
unfolding reservation_failure
retry_canceled (service_error (transaction_canceled_exception reasons)) h = (reasons, refl)
retry_canceled (service_error unhandled) h = cc
retry_canceled dispatch_failure h = cc

ReservationFailure-cases :
    (f : ReservationFailure)
    → (f ≡ ReservationFailure.retry)
      ⊎ (f ≡ ReservationFailure.limit_exceeded)
      ⊎ (f ≡ ReservationFailure.write_failed)
ReservationFailure-cases f = ground arith

module _ (sv : Services) (manager : TokenReservationManager) (left attempt : ℕ) (id : Text)
    (ws : List TransactWriteItem) (a : sv.State) (source : SdkError TransactWriteItemsError)
    (failed : (sv.transact_write_items (some id) ws a).0 ≡ err source) where
  abbrev round : Result TokenReservationError (Unit {0}) × sv.State
  round = reserve_attempts sv manager (suc left) attempt id ws a

  reserve_round_again :
      reservation_failure source ≡ ReservationFailure.retry
      → ltb (attempt + 1) 4 ≡ true
      → round
        ≡ reserve_attempts sv manager left
            (attempt + 1)
            id
            ws
            (pause sv attempt (sv.transact_write_items (some id) ws a).1)
  unfolding reserve_attempts
  reserve_round_again f h = rw (failed, f, h, reserve_attempts) refl

  reserve_round_over :
      reservation_failure source ≡ ReservationFailure.retry
      → ltb (attempt + 1) 4 ≡ false
      → round ≡ (err write_failed, (sv.transact_write_items (some id) ws a).1)
  unfolding reserve_attempts
  reserve_round_over f h = rw (failed, f, h, reserve_attempts) refl

  reserve_round_limit :
      reservation_failure source ≡ ReservationFailure.limit_exceeded
      → round ≡ (err limit_exceeded, (sv.transact_write_items (some id) ws a).1)
  unfolding reserve_attempts
  reserve_round_limit f = rw (failed, f, reserve_attempts) refl

  reserve_round_failed :
      reservation_failure source ≡ ReservationFailure.write_failed
      → round ≡ (err write_failed, (sv.transact_write_items (some id) ws a).1)
  unfolding reserve_attempts
  reserve_round_failed f = rw (failed, f, reserve_attempts) refl

-- A round of the loop by its outcome: a commit, another round behind a cancellation, or a failure.
reserve_round :
    (sv : Services) (manager : TokenReservationManager) (left attempt : ℕ) (id : Text)
    (ws : List TransactWriteItem) (a : sv.State)
    (P : Result TokenReservationError (Unit {0}) × sv.State → Type 0)
    → let (result, b) = sv.transact_write_items (some id) ws a in
      (result ≡ ok tt → P (ok tt, b))
      → ((reasons : List CancellationReason)
          → result ≡ err (service_error (transaction_canceled_exception reasons))
          → attempt + 1 < 4
          → P (reserve_attempts sv manager left (attempt + 1) id ws (pause sv attempt b)))
      → ((source : SdkError TransactWriteItemsError)
          → result ≡ err source
          → reservation_failure source ≡ ReservationFailure.limit_exceeded
          → P (err limit_exceeded, b))
      → ((source : SdkError TransactWriteItemsError)
          → result ≡ err source
          → P (err write_failed, b))
      → P (reserve_attempts sv manager (suc left) attempt id ws a)
unfolding reserve_attempts
reserve_round sv manager left attempt id ws a P committed again limit failed =
    elim (Result-cases (sv.transact_write_items (some id) ws a).0) [
      | inl (u, q) ↦ rw (q, reserve_attempts) (committed q)
      | inr (source, q) ↦ elim (ReservationFailure-cases (reservation_failure source)) [
        | inl f ↦ elim (Bool-cases (ltb (attempt + 1) 4)) [
          | inl h ↦
              let (reasons, e) = retry_canceled source f in
              rw (reserve_round_again sv manager left attempt id ws a source q f h)
                (again reasons (q ∙ ap err e) (ground arith))
          | inr h ↦
              rw (reserve_round_over sv manager left attempt id ws a source q f h) (failed source q)
        ]
        | inr (inl f) ↦
            rw (reserve_round_limit sv manager left attempt id ws a source q f) (limit source q f)
        | inr (inr f) ↦
            rw (reserve_round_failed sv manager left attempt id ws a source q f) (failed source q)
      ]
    ]

module _ (sv : Services) (doc : Documented sv) (manager : TokenReservationManager) where
  -- The loop ends well only behind a commit: it never runs out of its rounds.
  pub reserve_attempts_ok :
      (left attempt : ℕ) (id : Text) (ws : List TransactWriteItem) (a : sv.State)
      → IsPrivate sv doc id
      → doc.view.seen a id ≡ false
      → 0 < left
      → attempt + left ≡ 4
      → (reserve_attempts sv manager left attempt id ws a).0 ≡ ok tt
      → (a₀ : sv.State) × Applied doc.view ws a₀
          (reserve_attempts sv manager left attempt id ws a).1
  reserve_attempts_ok zero attempt id ws a alone fresh pos sum = absurd (omega arith)
  reserve_attempts_ok (suc left) attempt id ws a alone fresh pos sum =
      reserve_round sv manager left attempt id ws a
        (λ r. r.0 ≡ ok tt → (a₀ : sv.State) × Applied doc.view ws a₀ r.1)
        (λ q _. (a, doc.committed id ws a q fresh))
        (λ reasons q h.
          reserve_attempts_ok left (attempt + 1) id ws
            (pause sv attempt (sv.transact_write_items (some id) ws a).1) alone
            (pause-seen sv doc id attempt _ alone
              ((doc.canceled (some id) ws reasons a q).1 id ∙ fresh))
            (omega arith) (omega arith))
        (λ source q f e. cc) (λ source q e. cc)

  -- Where no other client acts meanwhile, the loop applies its transaction once or not at all,
  -- whatever it answers.
  pub reserve_attempts-AtMostOnce :
      (left attempt : ℕ) (id : Text) (ws : List TransactWriteItem) (a : sv.State)
      → IsQuiet sv doc
      → AtMostOnce doc.view ws a (reserve_attempts sv manager left attempt id ws a).1
  unfolding reserve_attempts
  reserve_attempts-AtMostOnce zero attempt id ws a quiet = inl (Same-refl doc.view a)
  reserve_attempts-AtMostOnce (suc left) attempt id ws a quiet =
      reserve_round sv manager left attempt id ws a (λ r. AtMostOnce doc.view ws a r.1)
        (λ q. doc.atomic (some id) ws a)
        (λ reasons q h.
          AtMostOnce-Same doc.view ws
            (Same-trans doc.view (doc.canceled (some id) ws reasons a q).0
              (pause-Same sv doc attempt _ quiet))
            (reserve_attempts-AtMostOnce left (attempt + 1) id ws
              (pause sv attempt (sv.transact_write_items (some id) ws a).1) quiet))
        (λ source q f. doc.atomic (some id) ws a) (λ source q. doc.atomic (some id) ws a)
