-- ===== src/TokenUsage.antt =====
-- services/proxy/src/token_usage.rs: `TokenUsageChecker`, which reads and adds to the token counts
-- of the usage windows. The source's expressions are given by their clauses and conditions.
pub mod Windows
pub mod Markers
pub mod Attributes
use internal_ai_gateway.Base.{
  ℕ, ◌≡◌, Bool, true, false, ◌&&◌, ◌++◌, List, [], ◌∷◌, Option, none, some, Text, codes, lookup,
  u64_max, checked_sub, ◌==◌, leb, if◌then◌else◌, Result, ok, err, ok_or, is_none, is_some,
  bind_option, fail_if, map_ok, map_err,
}
use internal_ai_gateway.Base.Results
use internal_ai_gateway.Base.Actions.{Action, ◌>>=◌, ◌>>◌, pure, map_err_of}
use internal_ai_gateway.Base.Decimal.{to_string, parse_uint}
use internal_ai_gateway.EngineerAuth.{AuthenticatedEngineer}
use internal_ai_gateway.Services.{
  AttributeValue, n, s, Item, Key, Condition, attribute_not_exists, at_most, either, set_to, add,
  Update, Put, TransactWriteItem, update, put, SdkError, service_error, dispatch_failure,
  TransactWriteItemsError, transaction_canceled_exception, unhandled, Services,
}
use Windows.{
  daily_window_seconds, weekly_window_seconds, daily_usage_window, weekly_usage_window,
  daily_usage_window_start, weekly_usage_window_start, token_usage_ttl_epoch_seconds,
  reconciliation_marker_ttl_epoch_seconds,
}

-- The boxed sources of the errors are only displayed, and are left out.
pub data TokenUsageError : Type 0 where
  daily_limit_exceeded weekly_limit_exceeded limit_exceeded_during_input_recording : TokenUsageError
  read_failed write_failed build_write_failed invalid_usage_item clock_failed : TokenUsageError

pub record TokenUsageChecker : Type 0 where
  pub table_name : Text

pub record TokenUsageDecision : Type 0 where
  pub daily_tokens : ℕ
  pub weekly_tokens : ℕ

abbrev pub consumed_tokens_attribute : Text
consumed_tokens_attribute = codes "consumed_tokens"

abbrev pub token_count_attribute : Text
token_count_attribute = codes "token_count"

abbrev pub usage_window_attribute : Text
usage_window_attribute = codes "usage_window"

abbrev pub user_id_attribute : Text
user_id_attribute = codes "user_id"

abbrev pub ttl_attribute : Text
ttl_attribute = codes "ttl"

abbrev pub usage_key : Text → Text → Key
usage_key user_id usage_window =
    (user_id_attribute, s user_id) ∷ (usage_window_attribute, s usage_window) ∷ []

unfoldable pub token_count_from_attribute : AttributeValue → Result TokenUsageError ℕ
token_count_from_attribute (n value) = ok_or (parse_uint u64_max value) invalid_usage_item
token_count_from_attribute _ = err invalid_usage_item

abbrev pub is_transaction_canceled_exception : SdkError TransactWriteItemsError → Bool
is_transaction_canceled_exception (service_error (transaction_canceled_exception reasons)) = true
is_transaction_canceled_exception (service_error unhandled) = false
is_transaction_canceled_exception dispatch_failure = false

-- The count of an item, 0 where it has none.
abbrev pub token_count_of : Option AttributeValue → Result TokenUsageError ℕ
token_count_of none = ok 0
token_count_of (some attribute) = token_count_from_attribute attribute

-- `attribute_not_exists(#token_count) OR #token_count <= :remaining`, under a limit.
unfoldable pub limit_condition : {E : Type 0} → Option ℕ → ℕ → E → Result E (Option Condition)
limit_condition none token_count limit_error = ok none
limit_condition (some limit) token_count limit_error =
    map_ok
      (λ remaining. some (
        either (attribute_not_exists token_count_attribute)
          (at_most token_count_attribute (n (to_string remaining)))))
      (ok_or (checked_sub limit token_count) limit_error)

module _ (sv : Services) where
  open sv use {State}

  -- `build`, whose failure each caller maps to an error of its own.
  abbrev pub build : {E : Type 0} → TransactWriteItem → E → Result E TransactWriteItem
  build w e = if sv.builds w then ok w else err e

  unfoldable pub current_epoch_seconds : Action State TokenUsageError ℕ
  current_epoch_seconds a = (ok_or (sv.system_time a) clock_failed, a)

  module _ (checker : TokenUsageChecker) where
    unfoldable pub usage_update :
        Text → Text → ℕ → Option ℕ → ℕ → TokenUsageError → Result TokenUsageError TransactWriteItem
    usage_update user_id usage_window token_count token_limit ttl limit_error =
        Results.◌>>=◌ (limit_condition token_limit token_count limit_error) λ condition.
          build
            (update (record {
              table_name = checker.table_name;
              key = usage_key user_id usage_window;
              update_expression =
                  set_to ttl_attribute (n (to_string ttl))
                  ∷ add token_count_attribute (n (to_string token_count))
                  ∷ add consumed_tokens_attribute (n (to_string token_count))
                  ∷ [];
              condition_expression = condition;
            }))
            build_write_failed

    unfoldable pub read_token_count : Text → Text → Action State TokenUsageError ℕ
    read_token_count user_id usage_window = do
      output ←
          map_err_of (λ _. read_failed)
            (sv.get_item checker.table_name (usage_key user_id usage_window))
      pure (token_count_of (bind_option output (lookup token_count_attribute)))

    unfoldable pub reconciliation_marker_exists : Text → Text → Action State TokenUsageError Bool
    reconciliation_marker_exists user_id reconciliation_window = do
      output ←
          map_err_of (λ _. read_failed)
            (sv.get_item checker.table_name (usage_key user_id reconciliation_window))
      pure (ok (is_some output))

    unfoldable pub reconciliation_marker :
        Text → Text → ℕ → Result TokenUsageError TransactWriteItem
    reconciliation_marker user_id reconciliation_window ttl =
        build
          (put (record {
            table_name = checker.table_name;
            item =
                (user_id_attribute, s user_id)
                ∷ (usage_window_attribute, s reconciliation_window)
                ∷ (codes "record_type", s (codes "usage_reconciliation"))
                ∷ (ttl_attribute, n (to_string ttl))
                ∷ [];
            condition_expression = some (attribute_not_exists usage_window_attribute);
          }))
          build_write_failed

    -- The count under a window that has a limit, and 0 under one that has none.
    abbrev limited_count : Option ℕ → Text → Text → Action State TokenUsageError ℕ
    limited_count none user_id usage_window = pure (ok 0)
    limited_count (some limit) user_id usage_window = read_token_count user_id usage_window

    abbrev reaches : Option ℕ → ℕ → Bool
    reaches none tokens = false
    reaches (some limit) tokens = leb limit tokens

    unfoldable pub check_counts :
        AuthenticatedEngineer → Action State TokenUsageError TokenUsageDecision
    unfolding current_epoch_seconds read_token_count
    check_counts engineer = do
      now ← current_epoch_seconds
      daily_tokens ←
          limited_count engineer.daily_token_limit engineer.user_id (daily_usage_window now)
      weekly_tokens ←
          limited_count engineer.weekly_token_limit engineer.user_id (weekly_usage_window now)
      pure (fail_if (reaches engineer.daily_token_limit daily_tokens) daily_limit_exceeded)
      pure (fail_if (reaches engineer.weekly_token_limit weekly_tokens) weekly_limit_exceeded)
      pure (ok (record { daily_tokens = daily_tokens; weekly_tokens = weekly_tokens }))

    -- With no limit nothing is read.
    unfoldable pub check_limits :
        AuthenticatedEngineer → Action State TokenUsageError TokenUsageDecision
    unfolding check_counts
    check_limits engineer =
        if is_none engineer.daily_token_limit && is_none engineer.weekly_token_limit
        then pure (ok (record { daily_tokens = 0; weekly_tokens = 0 }))
        else check_counts engineer

    -- What a transaction's failure means to `record_tokens_with_limit`.
    abbrev recording_error : Bool → SdkError TransactWriteItemsError → TokenUsageError
    recording_error enforce_limit source =
        if enforce_limit && is_transaction_canceled_exception source
        then limit_exceeded_during_input_recording
        else write_failed

    unfoldable pub record_at :
        AuthenticatedEngineer → ℕ → Bool → ℕ → Action State TokenUsageError (Unit {0})
    record_at engineer token_count enforce_limit now = do
      daily_update ← pure (
          usage_update engineer.user_id (daily_usage_window now) token_count
            (if enforce_limit then engineer.daily_token_limit else none)
            (token_usage_ttl_epoch_seconds (daily_usage_window_start now) daily_window_seconds)
            daily_limit_exceeded)
      weekly_update ← pure (
          usage_update engineer.user_id (weekly_usage_window now) token_count
            (if enforce_limit then engineer.weekly_token_limit else none)
            (token_usage_ttl_epoch_seconds (weekly_usage_window_start now) weekly_window_seconds)
            weekly_limit_exceeded)
      map_err_of (recording_error enforce_limit)
          (sv.transact_write_items none (daily_update ∷ weekly_update ∷ []))

    unfoldable pub record_tokens_with_limit :
        AuthenticatedEngineer → ℕ → Bool → Action State TokenUsageError (Unit {0})
    unfolding record_at current_epoch_seconds
    record_tokens_with_limit engineer token_count enforce_limit =
        if token_count == 0
        then pure (ok tt)
        else (do now ← current_epoch_seconds; record_at engineer token_count enforce_limit now)

    unfoldable pub record_input_tokens :
        AuthenticatedEngineer → ℕ → Action State TokenUsageError (Unit {0})
    unfolding record_tokens_with_limit
    record_input_tokens engineer input_tokens = record_tokens_with_limit engineer input_tokens true

    unfoldable pub record_tokens :
        AuthenticatedEngineer → ℕ → Action State TokenUsageError (Unit {0})
    unfolding record_tokens_with_limit
    record_tokens engineer token_count = record_tokens_with_limit engineer token_count false

    abbrev reconciliation_window : Text → Text
    reconciliation_window job_id = codes "reconciliation#" ++ job_id

    -- A cancelled transaction whose marker is there was recorded before.
    unfoldable pub settle_marker :
        Text
        → Text
        → Result (SdkError TransactWriteItemsError) (Unit {0})
        → Action State TokenUsageError (Unit {0})
    unfolding reconciliation_marker_exists
    settle_marker user_id window (ok _) = pure (ok tt)
    settle_marker user_id window (err source) =
        if is_transaction_canceled_exception source
        then (do
          exists ← reconciliation_marker_exists user_id window
          pure (if exists then ok tt else err write_failed))
        else pure (err write_failed)

    unfoldable pub marked_writes :
        Text → Text → ℕ → ℕ → ℕ → Result TokenUsageError (List TransactWriteItem)
    marked_writes job_id user_id token_count occurred_at now =
        Results.◌>>=◌
          (usage_update user_id (daily_usage_window occurred_at) token_count none
            (token_usage_ttl_epoch_seconds (daily_usage_window_start occurred_at)
              daily_window_seconds)
            daily_limit_exceeded)
          λ daily_update.
            Results.◌>>=◌
              (usage_update user_id (weekly_usage_window occurred_at) token_count none
                (token_usage_ttl_epoch_seconds (weekly_usage_window_start occurred_at)
                  weekly_window_seconds)
                weekly_limit_exceeded)
              λ weekly_update.
                Results.◌>>=◌
                  (reconciliation_marker user_id (reconciliation_window job_id)
                    (reconciliation_marker_ttl_epoch_seconds now))
                  λ marker. ok (daily_update ∷ weekly_update ∷ marker ∷ [])

    unfoldable pub record_marked : Text → Text → ℕ → ℕ → Action State TokenUsageError (Unit {0})
    record_marked job_id user_id token_count occurred_at = do
      now ← current_epoch_seconds
      writes ← pure (marked_writes job_id user_id token_count occurred_at now)
      λ a.
          let (result, b) = sv.transact_write_items (some job_id) writes a in
          settle_marker user_id (reconciliation_window job_id) result b

    unfoldable pub record_reconciliation :
        Text → Text → ℕ → ℕ → Action State TokenUsageError (Unit {0})
    unfolding record_marked
    record_reconciliation job_id user_id token_count occurred_at =
        if token_count == 0
        then pure (ok tt)
        else record_marked job_id user_id token_count occurred_at
