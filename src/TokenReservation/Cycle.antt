-- ===== src/TokenReservation/Cycle.antt =====
-- A hold and its settlement together.
use internal_ai_gateway.Base.{ℕ, ◌≡◌, Option, Text, unwrap_or, Result, ok, true, List, ◌∙◌, sym}
use internal_ai_gateway.Base.Int.{ℤ, pos, ◌+ℤ◌, sub_ℕ, int_laws, sub_ℕ_parts}
use internal_ai_gateway.EngineerAuth.{AuthenticatedEngineer}
use internal_ai_gateway.Services.{Item, TransactWriteItem, Services}
use internal_ai_gateway.Services.Documented.{View, Applied}
use internal_ai_gateway.TokenUsage.{usage_key}
use internal_ai_gateway.TokenUsage.Windows.{daily_usage_window, weekly_usage_window}
use internal_ai_gateway.TokenReservation.Effects.{Moves}
use internal_ai_gateway.TokenReservation.Writes.{
  TokenReservationError, ReservationReconciliation, reservation_writes, reconciliation_writes,
  reservation_window_of,
}
use internal_ai_gateway.TokenReservation.Settlements.{
  AreDistinct, settle_writes-Settled, reconciliation_writes_lem,
}
use internal_ai_gateway.TokenReservation.Inversion.{reservation_writes-eq_ok}
use internal_ai_gateway.TokenReservation.Holds.{
  hold_writes-Held, daily-weekly-ne, daily-reservation-ne, weekly-reservation-ne,
}

undone : (x : ℤ) (budget used : ℕ) → x +ℤ pos budget +ℤ sub_ℕ used budget ≡ x +ℤ pos used
undone x budget used = omega (int_laws, sub_ℕ_parts used budget)

hold-settle-Moves :
    (budget used : ℕ) (before held after : Option Item)
    → Moves before held (pos budget) (pos budget) (pos 0)
    → Moves held after (sub_ℕ used budget) (sub_ℕ 0 budget) (pos used)
    → Moves before after (pos used) (pos 0) (pos used)
hold-settle-Moves budget used before held after h k = record {
  total_moves = rw (k.total_moves, h.total_moves) (undone _ budget used);
  reserved_moves = rw (k.reserved_moves, h.reserved_moves) (undone _ budget 0);
  consumed_moves = rw (k.consumed_moves, h.consumed_moves) (omega int_laws);
}

-- The settlement that `reconcile` asks for after a reservation that `reserve` returned.
abbrev pub settlement :
    AuthenticatedEngineer → ℕ → ℕ → Text → Text → Option ℕ → ReservationReconciliation
settlement engineer budget now id completion_token actual_tokens = record {
  actual_tokens = actual_tokens;
  completion_token = completion_token;
  daily_window = daily_usage_window now;
  reservation_window = reservation_window_of id;
  token_budget = budget;
  user_id = engineer.user_id;
  weekly_window = weekly_usage_window now;
}

pub settlement-AreDistinct :
    (engineer : AuthenticatedEngineer) (budget now : ℕ) (id completion : Text) (actual : Option ℕ)
    → AreDistinct (settlement engineer budget now id completion actual)
settlement-AreDistinct engineer budget now id completion actual = record {
  daily_weekly = daily-weekly-ne now;
  daily_reservation = daily-reservation-ne now id;
  weekly_reservation = weekly-reservation-ne now id;
}

-- The transaction of a hold, followed by the transaction of its settlement, leaves nothing on hold:
-- in the daily and in the weekly window the total and the consumed tokens have grown by the tokens
-- that were used, or by the budget where they are not known, and the reserved tokens are as before.
pub reserve_then_reconcile :
    (sv : Services) (builds : (w : TransactWriteItem) → sv.builds w ≡ true) (table : Text)
    (engineer : AuthenticatedEngineer) (budget now : ℕ) (id completion : Text) (actual : Option ℕ)
    (view : View sv.State) (a b c : sv.State) (holds settles : List TransactWriteItem)
    → reservation_writes sv table engineer budget now id ≡ ok holds
    → reconciliation_writes sv table (settlement engineer budget now id completion actual)
      ≡ ok settles
    → Applied view holds a b
    → Applied view settles b c
    → Moves
        (view.item a table (usage_key engineer.user_id (daily_usage_window now)))
        (view.item c table (usage_key engineer.user_id (daily_usage_window now)))
        (pos (unwrap_or actual budget))
        (pos 0)
        (pos (unwrap_or actual budget))
      × Moves
          (view.item a table (usage_key engineer.user_id (weekly_usage_window now)))
          (view.item c table (usage_key engineer.user_id (weekly_usage_window now)))
          (pos (unwrap_or actual budget))
          (pos 0)
          (pos (unwrap_or actual budget))
reserve_then_reconcile sv builds table engineer budget now id completion actual view a b c holds
      settles eh es h k =
    let (daily, weekly, ed, ew, q) =
      reservation_writes-eq_ok sv builds table engineer budget now id holds eh in
    let held =
      hold_writes-Held view table engineer budget now id daily weekly a b ed ew (rw q at h) in
    let settled =
      settle_writes-Settled view table (settlement engineer budget now id completion actual) b c
        (settlement-AreDistinct engineer budget now id completion actual)
        (rw (same _ settles (sym (reconciliation_writes_lem sv builds table _) ∙ es)) at k) in
    (
      hold-settle-Moves budget _ _ _ _ held.daily.moves settled.daily,
      hold-settle-Moves budget _ _ _ _ held.weekly.moves settled.weekly,
    )
  where
    Writes : Type 0
    Writes = Result TokenReservationError (List TransactWriteItem)

    same : (us vs : List TransactWriteItem) → Path Writes (ok us) (ok vs) → vs ≡ us
    same us vs e = cc
