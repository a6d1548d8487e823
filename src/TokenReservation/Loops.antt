-- ===== src/TokenReservation/Loops.antt =====
-- The pause between two attempts of the retry loops, whose theorems are in the children.
pub mod Reserve
pub mod Reconcile
use internal_ai_gateway.Base.{
  ℕ, zero, suc, ◌+◌, ◌<◌, ◌≡◌, refl, Bool-cases, Result-cases, true, false, List, Option, some,
  Text, Result, ok, err, inl, inr, ltb, arith, ◌⊎◌, ◌∙◌, ap, ◌^◌, ◌*◌,
}
use internal_ai_gateway.Services.{
  CancellationReason, TransactWriteItem, TransactWriteItemsError, transaction_canceled_exception,
  unhandled, SdkError, service_error, dispatch_failure, Services,
}
use internal_ai_gateway.Services.Documented.{Documented, Applied, Same}
use internal_ai_gateway.Services.Atomic.{Same-refl, Same-trans, AtMostOnce, AtMostOnce-Same}
use internal_ai_gateway.TokenReservation.{
  TokenReservationManager, pause, reserve_attempts, reconcile_attempts,
}
use internal_ai_gateway.TokenReservation.Writes.{
  TokenReservationError, limit_exceeded, write_failed,
}
use internal_ai_gateway.TokenReservation.Failures.{
  ReservationFailure, ReconciliationFailure, reservation_failure, reconciliation_failure,
}

module _ (sv : Services) (doc : Documented sv) where
  -- No other client commits under a token while the loop sleeps.
  abbrev pub IsPrivate : Text → Type 0
  IsPrivate token =
      (delay : ℕ) (a : sv.State)
      → doc.view.seen a token ≡ false
      → doc.view.seen (sv.sleep delay a) token ≡ false

  -- No other client acts while the loop sleeps.
  abbrev pub IsQuiet : Type 0
  IsQuiet = (delay : ℕ) (a : sv.State) → Same doc.view a (sv.sleep delay a)

  pub pause-seen :
      (token : Text) (attempt : ℕ) (a : sv.State)
      → IsPrivate token
      → doc.view.seen a token ≡ false
      → doc.view.seen (pause sv attempt a) token ≡ false
  unfolding pause
  pause-seen token attempt a alone fresh =
      let b = (sv.random (25 * 2 ^ attempt) a).1 in
      alone _ b ((doc.random_keeps (25 * 2 ^ attempt) a).2 token ∙ fresh)

  pub pause-Same : (attempt : ℕ) (a : sv.State) → IsQuiet → Same doc.view a (pause sv attempt a)
  unfolding pause
  pause-Same attempt a quiet =
      Same-trans doc.view (doc.random_keeps (25 * 2 ^ attempt) a).1 (quiet _ _)
