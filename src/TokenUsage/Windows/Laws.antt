-- ===== src/TokenUsage/Windows/Laws.antt =====
-- What the usage windows are: the day and the Monday-based week of a time, and when they expire.
use internal_ai_gateway.Base.{
  ℕ, ◌+◌, ◌*◌, ◌/◌, ◌%◌, ◌≤◌, ◌<◌, ◌≡◌, ◌↔◌, ◌⊎◌, refl, ap, arith, drop, u64_max, saturating_add,
}
use internal_ai_gateway.Base.Decimal.Laws.{to_string-injective}
use internal_ai_gateway.TokenUsage.Windows.{
  daily_window_seconds, weekly_window_seconds, monday_week_offset_seconds, daily_usage_window,
  weekly_usage_window, daily_usage_window_start, weekly_usage_window_start,
  token_usage_ttl_epoch_seconds,
}

abbrev monday : ℕ → ℕ
monday t = saturating_add t monday_week_offset_seconds

-- The start of the daily window is the last multiple of a day up to the time.
daily_usage_window_start_bounds :
    (t : ℕ)
    → (daily_usage_window_start t ≤ t)
      × (t < daily_usage_window_start t + daily_window_seconds)
      × (daily_usage_window_start t % daily_window_seconds ≡ 0)
unfolding daily_usage_window_start
daily_usage_window_start_bounds t = omega arith

-- From the first Monday of the epoch on, the start of the weekly window is a Monday's midnight (a
-- multiple of a week past day four), at most the time and less than a week before it, for every
-- time that leaves the offset room in 64 bits. Before that Monday it is the epoch itself.
pub weekly_usage_window_start_bounds :
    (t : ℕ)
    → t + monday_week_offset_seconds ≤ u64_max
    → (weekly_usage_window_start t ≤ t)
      × (t < weekly_usage_window_start t + weekly_window_seconds)
      × (((4 * daily_window_seconds ≤ t)
            × ((weekly_usage_window_start t + monday_week_offset_seconds) % weekly_window_seconds
                ≡ 0))
          ⊎ ((t < 4 * daily_window_seconds) × (weekly_usage_window_start t ≡ 0)))
unfolding weekly_usage_window_start
weekly_usage_window_start_bounds t h = (omega arith, omega arith, ground arith)

-- Two times share the name of their daily window exactly when they share its start.
pub daily_usage_window-eq_iff :
    (a b : ℕ)
    → (daily_usage_window a ≡ daily_usage_window b)
      ↔ (daily_usage_window_start a ≡ daily_usage_window_start b)
unfolding daily_usage_window daily_usage_window_start
daily_usage_window-eq_iff a b = (
  λ e. omega (arith, to_string-injective (a / 86400) (b / 86400) (ap (drop 6) e)),
  λ e. let q : a / 86400 ≡ b / 86400 = omega arith in rw q refl,
)

-- The same for the weekly window.
pub weekly_usage_window-eq_iff :
    (a b : ℕ)
    → (weekly_usage_window a ≡ weekly_usage_window b)
      ↔ (weekly_usage_window_start a ≡ weekly_usage_window_start b)
unfolding weekly_usage_window weekly_usage_window_start
weekly_usage_window-eq_iff a b = (
  λ e. omega (
    arith,
    to_string-injective (monday a / weekly_window_seconds) (monday b / weekly_window_seconds)
        (ap (drop 7) e),
  ),
  λ e.
      let q : monday a / weekly_window_seconds ≡ monday b / weekly_window_seconds = omega arith in
      rw q refl,
)

-- The expiry of a window's record lies at least a whole window past every time in the window, for a day
-- and for a week, where the time leaves room for two weeks in 64 bits.
pub token_usage_ttl_outlives :
    (t : ℕ)
    → t + 2 * weekly_window_seconds ≤ u64_max
    → (t + daily_window_seconds
        < token_usage_ttl_epoch_seconds (daily_usage_window_start t) daily_window_seconds + 1)
      × (t + weekly_window_seconds
          < token_usage_ttl_epoch_seconds (weekly_usage_window_start t) weekly_window_seconds + 1)
unfolding token_usage_ttl_epoch_seconds daily_usage_window_start weekly_usage_window_start
token_usage_ttl_outlives t h = omega arith
