-- ===== src/RateLimit.antt =====
-- services/proxy/src/rate_limit.rs: the request counter of a user's fixed windows. A `Duration` is its
-- whole seconds, which is all that the source reads of it.
pub mod Counting
use internal_ai_gateway.Base.{
  ℕ, ◌+◌, ◌-◌, ◌%◌, max, Bool, true, false, List, [], ◌∷◌, Option, none, some, Text, codes,
  if◌then◌else◌, ok, err, ok_or, saturating_add, saturating_mul,
}
use internal_ai_gateway.Base.Actions.{Action, ◌>>=◌, ◌>>◌, pure, map_err_of}
use internal_ai_gateway.Base.Decimal.{to_string}
use internal_ai_gateway.Services.{
  n, s, Key, Condition, attribute_not_exists, less_than, either, set_to, add, Update, SdkError,
  service_error, dispatch_failure, UpdateItemError, conditional_check_failed_exception, unhandled,
  Services,
}

pub record RateLimiter : Type 0 where
  pub requests_per_window : ℕ
  pub table_name : Text
  pub window : ℕ

pub record RateLimitDecision : Type 0 where
  pub limit : ℕ
  pub window_start_epoch_seconds : ℕ

pub data RateLimitError : Type 0 where
  rate_limit_exceeded update_failed clock_failed : RateLimitError

abbrev pub request_count_attribute : Text
request_count_attribute = codes "request_count"

abbrev pub request_ts_attribute : Text
request_ts_attribute = codes "request_ts"

abbrev pub ttl_attribute : Text
ttl_attribute = codes "ttl"

abbrev pub user_id_attribute : Text
user_id_attribute = codes "user_id"

-- `RateLimiter::new`: a limit and a window of at least one.
unfoldable pub new : Text → ℕ → ℕ → RateLimiter
new table_name requests_per_window window = record {
  requests_per_window = max requests_per_window 1;
  table_name = table_name;
  window = max window 1;
}

unfoldable pub window_start_epoch_seconds : ℕ → ℕ → ℕ
window_start_epoch_seconds now_epoch_seconds window =
    now_epoch_seconds - now_epoch_seconds % max window 1

unfoldable pub rate_limit_ttl_epoch_seconds : ℕ → ℕ → ℕ
rate_limit_ttl_epoch_seconds window_start window =
    saturating_add window_start (saturating_mul (max window 1) 2)

abbrev pub rate_limit_key : Text → ℕ → Key
rate_limit_key user_id window_start =
    (user_id_attribute, s user_id) ∷ (request_ts_attribute, n (to_string window_start)) ∷ []

-- The update of `check_and_record`.
unfoldable pub count_update : RateLimiter → Text → ℕ → ℕ → Update
count_update limiter user_id window_start ttl = record {
  table_name = limiter.table_name;
  key = rate_limit_key user_id window_start;
  update_expression =
      set_to ttl_attribute (n (to_string ttl)) ∷ add request_count_attribute (n (codes "1")) ∷ [];
  condition_expression = some (
      either (attribute_not_exists request_count_attribute)
        (less_than request_count_attribute (n (to_string limiter.requests_per_window))));
}

abbrev pub update_error : SdkError UpdateItemError → RateLimitError
update_error (service_error conditional_check_failed_exception) = rate_limit_exceeded
update_error (service_error unhandled) = update_failed
update_error dispatch_failure = update_failed

module _ (sv : Services) (limiter : RateLimiter) where
  open sv use {State}

  unfoldable pub current_epoch_seconds : Action State RateLimitError ℕ
  current_epoch_seconds a = (ok_or (sv.system_time a) clock_failed, a)

  unfoldable pub record_at : Text → ℕ → Action State RateLimitError RateLimitDecision
  record_at user_id now = do
    let window_start = window_start_epoch_seconds now limiter.window
    let ttl = rate_limit_ttl_epoch_seconds window_start limiter.window
    map_err_of update_error (sv.update_item (count_update limiter user_id window_start ttl))
    pure (
        ok (record {
          limit = limiter.requests_per_window;
          window_start_epoch_seconds = window_start;
        }))

  unfoldable pub check_and_record : Text → Action State RateLimitError RateLimitDecision
  check_and_record user_id = do now ← current_epoch_seconds; record_at user_id now
