-- ===== src/TokenReservation/Inversion.antt =====
-- The writes that a successful build gives.
use internal_ai_gateway.Base.{
  ℕ, ◌≡◌, true, List, [], ◌∷◌, Option, some, Text, ok, map_ok, Result-cases, inl, inr, arith,
}
use internal_ai_gateway.EngineerAuth.{AuthenticatedEngineer}
use internal_ai_gateway.Services.{
  attribute_not_exists, Condition, TransactWriteItem, update, put, Services,
}
use internal_ai_gateway.TokenUsage.{usage_key, usage_window_attribute, limit_condition}
use internal_ai_gateway.TokenUsage.Windows.{
  weekly_window_seconds, daily_window_seconds, daily_usage_window, weekly_usage_window,
  daily_usage_window_start, weekly_usage_window_start, token_usage_ttl_epoch_seconds,
}
use internal_ai_gateway.TokenReservation.Writes.{
  limit_exceeded, ReservationRecord, reservation_item, reservation_window_of, reservation_writes,
  reservation_update, reservation_put,
}
use internal_ai_gateway.TokenReservation.Effects.{hold_clauses}

abbrev pub hold_update : Text → Text → Text → Option Condition → ℕ → ℕ → TransactWriteItem
hold_update table user window condition ttl budget = update (record {
  table_name = table;
  key = usage_key user window;
  update_expression = hold_clauses ttl budget;
  condition_expression = condition;
})

abbrev pub record_put : Text → ReservationRecord → TransactWriteItem
record_put table r = put (record {
  table_name = table;
  item = reservation_item r;
  condition_expression = some (attribute_not_exists usage_window_attribute);
})

abbrev pub daily_ttl : ℕ → ℕ
daily_ttl now = token_usage_ttl_epoch_seconds (daily_usage_window_start now) daily_window_seconds

abbrev pub weekly_ttl : ℕ → ℕ
weekly_ttl now = token_usage_ttl_epoch_seconds (weekly_usage_window_start now) weekly_window_seconds

abbrev pub held_record : AuthenticatedEngineer → ℕ → ℕ → Text → ReservationRecord
held_record engineer budget now id = record {
  daily_window = daily_usage_window now;
  request_id = id;
  reservation_window = reservation_window_of id;
  token_budget = budget;
  ttl = weekly_ttl now;
  user_id = engineer.user_id;
  weekly_window = weekly_usage_window now;
}

-- The transaction of a hold, by the two conditions.
abbrev pub hold_writes :
    Text
    → AuthenticatedEngineer
    → ℕ
    → ℕ
    → Text
    → Option Condition
    → Option Condition
    → List TransactWriteItem
hold_writes table engineer budget now id daily weekly =
    hold_update table engineer.user_id (daily_usage_window now) daily (daily_ttl now) budget
    ∷ hold_update table engineer.user_id (weekly_usage_window now) weekly (weekly_ttl now) budget
    ∷ record_put table (held_record engineer budget now id)
    ∷ []

module _ (sv : Services) (builds : (w : TransactWriteItem) → sv.builds w ≡ true) (table : Text)
    (engineer : AuthenticatedEngineer) (budget now : ℕ) (id : Text) where
  reservation_update_lem :
      (window : Text) (limit : Option ℕ) (ttl : ℕ)
      → reservation_update sv table engineer.user_id window budget limit ttl
        ≡ map_ok
            (λ condition. hold_update table engineer.user_id window condition ttl budget)
            (limit_condition limit budget limit_exceeded)
  unfolding reservation_update
  reservation_update_lem window limit ttl =
      elim (Result-cases (limit_condition limit budget limit_exceeded)) [
        | inl (c, e) ↦ rw (e, builds (hold_update table engineer.user_id window c ttl budget))
        | inr (x, e) ↦ rw e
      ]

  reservation_put_lem :
      (r : ReservationRecord) → reservation_put sv table r ≡ ok (record_put table r)
  unfolding reservation_put
  reservation_put_lem r = rw (builds (record_put table r))

  -- Both limits allow the budget, and the writes are the two holds and the record.
  pub reservation_writes-eq_ok :
      (ws : List TransactWriteItem)
      → reservation_writes sv table engineer budget now id ≡ ok ws
      → (daily weekly : Option Condition) × (limit_condition engineer.daily_token_limit budget
            limit_exceeded
          ≡ ok daily)
        × (limit_condition engineer.weekly_token_limit budget limit_exceeded ≡ ok weekly)
        × (ws ≡ hold_writes table engineer budget now id daily weekly)
  unfolding reservation_writes
  reservation_writes-eq_ok ws e = ground (
    arith,
    reservation_update_lem (daily_usage_window now) engineer.daily_token_limit (daily_ttl now),
    reservation_update_lem (weekly_usage_window now) engineer.weekly_token_limit (weekly_ttl now),
    reservation_put_lem (held_record engineer budget now id),
  )
