-- ===== src/TokenUsage/Windows.antt =====
-- services/proxy/src/token_usage.rs: the usage windows, their starts and the expiry times. Times are
-- whole seconds since the epoch; a week begins on Monday.
pub mod Laws
use internal_ai_gateway.Base.{
  ℕ, ◌+◌, ◌-◌, ◌*◌, ◌/◌, ◌%◌, ◌++◌, Text, codes, saturating_add, saturating_mul, saturating_sub,
}
use internal_ai_gateway.Base.Decimal.{to_string}

abbrev pub daily_window_seconds : ℕ
daily_window_seconds = 86_400

abbrev pub weekly_window_seconds : ℕ
weekly_window_seconds = daily_window_seconds * 7

abbrev pub monday_week_offset_seconds : ℕ
monday_week_offset_seconds = daily_window_seconds * 3

abbrev pub reconciliation_marker_retention_seconds : ℕ
reconciliation_marker_retention_seconds = daily_window_seconds * 30

unfoldable pub daily_usage_window : ℕ → Text
daily_usage_window epoch_seconds =
    codes "daily#" ++ to_string (epoch_seconds / daily_window_seconds)

unfoldable pub weekly_usage_window : ℕ → Text
weekly_usage_window epoch_seconds =
    codes "weekly#"
    ++ to_string (saturating_add epoch_seconds monday_week_offset_seconds / weekly_window_seconds)

unfoldable pub daily_usage_window_start : ℕ → ℕ
daily_usage_window_start epoch_seconds = epoch_seconds - epoch_seconds % daily_window_seconds

unfoldable pub weekly_usage_window_start : ℕ → ℕ
weekly_usage_window_start epoch_seconds =
    let monday_aligned_seconds = saturating_add epoch_seconds monday_week_offset_seconds in
    let monday_aligned_start =
      monday_aligned_seconds - monday_aligned_seconds % weekly_window_seconds in
    saturating_sub monday_aligned_start monday_week_offset_seconds

unfoldable pub token_usage_ttl_epoch_seconds : ℕ → ℕ → ℕ
token_usage_ttl_epoch_seconds window_start window_seconds =
    saturating_add window_start (saturating_mul window_seconds 2)

unfoldable pub reconciliation_marker_ttl_epoch_seconds : ℕ → ℕ
reconciliation_marker_ttl_epoch_seconds processed_at =
    saturating_add processed_at reconciliation_marker_retention_seconds
