-- ===== src/Config.antt =====
-- services/proxy/src/config.rs: the configuration, read from the environment. How a variable is read and what
-- counts as white space are parameters. A `Duration` is its whole seconds.
use internal_ai_gateway.Base.{
  ℕ, ◌≤◌, ◌≡◌, subst, Bool, not, Option, none, some, Text, codes, is_empty, trim, bind_option,
  unwrap_or, max, if◌then◌else◌, Result, ok, ok_or, ◌>>=◌, >>=-ok, u64_max, arith,
}
use internal_ai_gateway.Base.Decimal.{parse_uint}

pub record ProxyConfig : Type 0 where
  pub anthropic_api_key_secret_arn : Text
  pub anthropic_base_url : Text
  pub engineers_api_key_index_name : Text
  pub engineers_table_name : Text
  pub port : ℕ
  pub max_active_streams : ℕ
  pub metric_interval : ℕ
  pub openai_api_key_secret_arn : Text
  pub openai_base_url : Text
  pub openai_default_max_completion_tokens : ℕ
  pub proxy_service_name : Text
  pub proxy_api_key_hash_secret_arn : Text
  pub rate_limit_requests_per_window : ℕ
  pub rate_limit_table_name : Text
  pub rate_limit_window : ℕ
  pub token_usage_table_name : Text
  pub token_reconciliation_queue_url : Text

pub data ProxyConfigError : Type 0 where
  missing_required_value : Text → ProxyConfigError

-- A number up to a bound, or the default.
unfoldable pub parse_value : ℕ → Option Text → ℕ → ℕ
parse_value bound value default_value =
    unwrap_or (bind_option value (parse_uint bound)) default_value

module _ (is_whitespace : ℕ → Bool) where
  abbrev not_blank : Text → Option Text
  not_blank raw_value =
      if not (is_empty (trim is_whitespace raw_value)) then some raw_value else none

  unfoldable pub required_value : Option Text → Text → Result ProxyConfigError Text
  required_value value name = ok_or (bind_option value not_blank) (missing_required_value name)

  module _ (read_value : Text → Option Text) where
    abbrev pub required : Text → Result ProxyConfigError Text
    required name = required_value (read_value name) name

    -- At least one.
    abbrev pub at_least_one : Text → ℕ → ℕ
    at_least_one name default_value = max (parse_value u64_max (read_value name) default_value) 1

    unfoldable pub from_values : Result ProxyConfigError ProxyConfig
    unfolding required_value parse_value
    from_values = do
      anthropic_api_key_secret_arn ← required (codes "ANTHROPIC_API_KEY_SECRET_ARN")
      anthropic_base_url ← required (codes "ANTHROPIC_BASE_URL")
      engineers_api_key_index_name ← required (codes "ENGINEERS_API_KEY_INDEX_NAME")
      engineers_table_name ← required (codes "ENGINEERS_TABLE_NAME")
      openai_api_key_secret_arn ← required (codes "OPENAI_API_KEY_SECRET_ARN")
      openai_base_url ← required (codes "OPENAI_BASE_URL")
      proxy_service_name ← required (codes "PROXY_SERVICE_NAME")
      proxy_api_key_hash_secret_arn ← required (codes "PROXY_API_KEY_HASH_SECRET_ARN")
      rate_limit_table_name ← required (codes "RATE_LIMIT_TABLE_NAME")
      token_usage_table_name ← required (codes "TOKEN_USAGE_TABLE_NAME")
      token_reconciliation_queue_url ← required (codes "TOKEN_RECONCILIATION_QUEUE_URL")
      ok (record {
        anthropic_api_key_secret_arn = anthropic_api_key_secret_arn;
        anthropic_base_url = anthropic_base_url;
        engineers_api_key_index_name = engineers_api_key_index_name;
        engineers_table_name = engineers_table_name;
        port = parse_value 65_535 (read_value (codes "PORT")) 8080;
        max_active_streams = at_least_one (codes "MAX_ACTIVE_STREAMS") 200;
        metric_interval = at_least_one (codes "ACTIVE_STREAM_METRIC_INTERVAL_SECONDS") 15;
        openai_api_key_secret_arn = openai_api_key_secret_arn;
        openai_base_url = openai_base_url;
        openai_default_max_completion_tokens =
            at_least_one (codes "OPENAI_DEFAULT_MAX_COMPLETION_TOKENS") 32_768;
        proxy_service_name = proxy_service_name;
        proxy_api_key_hash_secret_arn = proxy_api_key_hash_secret_arn;
        rate_limit_requests_per_window = at_least_one (codes "RATE_LIMIT_REQUESTS_PER_WINDOW") 120;
        rate_limit_table_name = rate_limit_table_name;
        rate_limit_window = at_least_one (codes "RATE_LIMIT_WINDOW_SECONDS") 60;
        token_usage_table_name = token_usage_table_name;
        token_reconciliation_queue_url = token_reconciliation_queue_url;
      })

    -- The limits of a configuration are at least one, whatever the environment says, so that no limit shuts
    -- every request out.
    abbrev pub IsPositive : ProxyConfig → Type 0
    IsPositive c =
        (1 ≤ c.max_active_streams)
        × (1 ≤ c.metric_interval)
        × (1 ≤ c.openai_default_max_completion_tokens)
        × (1 ≤ c.rate_limit_requests_per_window)
        × (1 ≤ c.rate_limit_window)

    pub from_values-IsPositive : (c : ProxyConfig) → from_values ≡ ok c → IsPositive c
    unfolding from_values
    from_values-IsPositive c h =
        let (_, _, h) = >>=-ok (required (codes "ANTHROPIC_API_KEY_SECRET_ARN")) _ c h in
        let (_, _, h) = >>=-ok (required (codes "ANTHROPIC_BASE_URL")) _ c h in
        let (_, _, h) = >>=-ok (required (codes "ENGINEERS_API_KEY_INDEX_NAME")) _ c h in
        let (_, _, h) = >>=-ok (required (codes "ENGINEERS_TABLE_NAME")) _ c h in
        let (_, _, h) = >>=-ok (required (codes "OPENAI_API_KEY_SECRET_ARN")) _ c h in
        let (_, _, h) = >>=-ok (required (codes "OPENAI_BASE_URL")) _ c h in
        let (_, _, h) = >>=-ok (required (codes "PROXY_SERVICE_NAME")) _ c h in
        let (_, _, h) = >>=-ok (required (codes "PROXY_API_KEY_HASH_SECRET_ARN")) _ c h in
        let (_, _, h) = >>=-ok (required (codes "RATE_LIMIT_TABLE_NAME")) _ c h in
        let (_, _, h) = >>=-ok (required (codes "TOKEN_USAGE_TABLE_NAME")) _ c h in
        let (_, _, h) = >>=-ok (required (codes "TOKEN_RECONCILIATION_QUEUE_URL")) _ c h in
        subst IsPositive (same _ h)
          (at_least _ _, at_least _ _, at_least _ _, at_least _ _, at_least _ _)
      where
        same : (d : ProxyConfig) → Path (Result ProxyConfigError ProxyConfig) (ok d) (ok c) → d ≡ c
        same d e = cc

        at_least : (name : Text) (default_value : ℕ) → 1 ≤ at_least_one name default_value
        at_least name default_value = omega arith
