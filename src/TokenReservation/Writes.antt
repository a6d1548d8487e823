-- ===== src/TokenReservation/Writes.antt =====
-- services/proxy/src/token_reservation.rs: the writes of the two transactions. The source's
-- expressions are given by their clauses and conditions.
use internal_ai_gateway.Base.{
  ℕ, ◌++◌, List, [], ◌∷◌, Option, none, some, Text, codes, Result, ok, ◌>>=◌, unwrap_or,
}
use internal_ai_gateway.Base.Int.{ℤ, sub_ℕ}
use internal_ai_gateway.Base.Decimal.{to_string, int_to_string}
use internal_ai_gateway.Services.{
  n, s, Item, attribute_not_exists, equals, set_to, add, TransactWriteItem, update, put, Services,
}
use internal_ai_gateway.EngineerAuth.{AuthenticatedEngineer}
use internal_ai_gateway.TokenUsage.Windows.{
  weekly_window_seconds, daily_window_seconds, daily_usage_window, weekly_usage_window,
  daily_usage_window_start, weekly_usage_window_start, token_usage_ttl_epoch_seconds,
}
use internal_ai_gateway.TokenUsage.{
  TokenUsageError, consumed_tokens_attribute, token_count_attribute, usage_window_attribute,
  user_id_attribute, ttl_attribute, usage_key, limit_condition, build,
}

-- The boxed sources of the errors are only displayed, and are left out. `unreachable` stands for the
-- panic of the `unreachable!` behind the reconciliation's loop.
pub data TokenReservationError : Type 0 where
  invalid_budget limit_exceeded write_failed build_write_failed unreachable : TokenReservationError
  usage : TokenUsageError → TokenReservationError
  queue_failed : TokenReservationError → TokenReservationError

abbrev pub reserved_tokens_attribute : Text
reserved_tokens_attribute = codes "reserved_tokens"

abbrev pub reservation_status_attribute : Text
reservation_status_attribute = codes "status"

abbrev pub reservation_status_completed : Text
reservation_status_completed = codes "completed"

abbrev pub reservation_status_reserved : Text
reservation_status_reserved = codes "reserved"

abbrev pub actual_tokens_attribute : Text
actual_tokens_attribute = codes "actual_tokens"

abbrev reservation_record_type : Text
reservation_record_type = codes "token_reservation"

abbrev pub reservation_window_of : Text → Text
reservation_window_of reservation_id = codes "reservation#" ++ reservation_id

pub record ReservationRecord : Type 0 where
  pub daily_window : Text
  pub request_id : Text
  pub reservation_window : Text
  pub token_budget : ℕ
  pub ttl : ℕ
  pub user_id : Text
  pub weekly_window : Text

pub record ReservationReconciliation : Type 0 where
  pub actual_tokens : Option ℕ
  pub completion_token : Text
  pub daily_window : Text
  pub reservation_window : Text
  pub token_budget : ℕ
  pub user_id : Text
  pub weekly_window : Text

-- The changes of the total and of the reserved tokens, and the tokens charged.
unfoldable pub reconciliation_values : ℕ → Option ℕ → ℤ × ℤ × ℕ
reconciliation_values token_budget actual_tokens =
    let charged_tokens = unwrap_or actual_tokens token_budget in
    (sub_ℕ charged_tokens token_budget, sub_ℕ 0 token_budget, charged_tokens)

unfoldable pub reservation_item : ReservationRecord → Item
reservation_item r =
    (user_id_attribute, s r.user_id)
    ∷ (usage_window_attribute, s r.reservation_window)
    ∷ (codes "record_type", s reservation_record_type)
    ∷ (codes "request_id", s r.request_id)
    ∷ (reservation_status_attribute, s reservation_status_reserved)
    ∷ (reserved_tokens_attribute, n (to_string r.token_budget))
    ∷ (codes "daily_window", s r.daily_window)
    ∷ (codes "weekly_window", s r.weekly_window)
    ∷ (ttl_attribute, n (to_string r.ttl))
    ∷ (codes "expires_at", n (to_string r.ttl))
    ∷ []

module _ (sv : Services) (table_name : Text) where
  unfoldable pub reservation_update :
      Text → Text → ℕ → Option ℕ → ℕ → Result TokenReservationError TransactWriteItem
  reservation_update user_id usage_window token_budget token_limit ttl = do
    condition ← limit_condition token_limit token_budget limit_exceeded
    build sv
        (update (record {
          table_name = table_name;
          key = usage_key user_id usage_window;
          update_expression =
              set_to ttl_attribute (n (to_string ttl))
              ∷ add token_count_attribute (n (to_string token_budget))
              ∷ add reserved_tokens_attribute (n (to_string token_budget))
              ∷ [];
          condition_expression = condition;
        }))
        build_write_failed

  unfoldable pub reservation_put :
      ReservationRecord → Result TokenReservationError TransactWriteItem
  reservation_put r =
      build sv
        (put (record {
          table_name = table_name;
          item = reservation_item r;
          condition_expression = some (attribute_not_exists usage_window_attribute);
        }))
        build_write_failed

  unfoldable pub reconciliation_update :
      Text → Text → ℤ → ℤ → ℕ → Result TokenReservationError TransactWriteItem
  reconciliation_update user_id usage_window token_count_adjustment reserved_adjustment
        consumed_tokens =
      build sv
        (update (record {
          table_name = table_name;
          key = usage_key user_id usage_window;
          update_expression =
              add token_count_attribute (n (int_to_string token_count_adjustment))
              ∷ add reserved_tokens_attribute (n (int_to_string reserved_adjustment))
              ∷ add consumed_tokens_attribute (n (to_string consumed_tokens))
              ∷ [];
          condition_expression = none;
        }))
        build_write_failed

  -- The reservation's own record moves from `reserved` to `completed`, once.
  unfoldable pub completion_update :
      ReservationReconciliation → ℕ → Result TokenReservationError TransactWriteItem
  completion_update r charged_tokens =
      build sv
        (update (record {
          table_name = table_name;
          key = usage_key r.user_id r.reservation_window;
          update_expression =
              set_to reservation_status_attribute (s reservation_status_completed)
              ∷ set_to actual_tokens_attribute (n (to_string charged_tokens))
              ∷ [];
          condition_expression =
              some (equals reservation_status_attribute (s reservation_status_reserved));
        }))
        build_write_failed

  -- The three writes of `reconcile_reservation`.
  unfoldable pub reconciliation_writes :
      ReservationReconciliation → Result TokenReservationError (List TransactWriteItem)
  reconciliation_writes r = do
    let (token_count_adjustment, reserved_adjustment, charged_tokens) =
        reconciliation_values r.token_budget r.actual_tokens
    daily_update ←
        reconciliation_update r.user_id r.daily_window token_count_adjustment reserved_adjustment
          charged_tokens
    weekly_update ←
        reconciliation_update r.user_id r.weekly_window token_count_adjustment reserved_adjustment
          charged_tokens
    reservation_update ← completion_update r charged_tokens
    ok (daily_update ∷ weekly_update ∷ reservation_update ∷ [])

  -- The three writes of `reserve`.
  unfoldable pub reservation_writes :
      AuthenticatedEngineer → ℕ → ℕ → Text → Result TokenReservationError (List TransactWriteItem)
  reservation_writes engineer token_budget now reservation_id = do
    let ttl = token_usage_ttl_epoch_seconds (weekly_usage_window_start now) weekly_window_seconds
    daily_update ←
        reservation_update engineer.user_id (daily_usage_window now) token_budget
          engineer.daily_token_limit
          (token_usage_ttl_epoch_seconds (daily_usage_window_start now) daily_window_seconds)
    weekly_update ←
        reservation_update engineer.user_id (weekly_usage_window now) token_budget
          engineer.weekly_token_limit ttl
    reservation_put ← reservation_put (record {
      daily_window = daily_usage_window now;
      request_id = reservation_id;
      reservation_window = reservation_window_of reservation_id;
      token_budget = token_budget;
      ttl = ttl;
      user_id = engineer.user_id;
      weekly_window = weekly_usage_window now;
    })
    ok (daily_update ∷ weekly_update ∷ reservation_put ∷ [])
