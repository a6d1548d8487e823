-- ===== src/Tests/Pure.antt =====
-- Runs of the theorems on streams, events and windows.
use internal_ai_gateway.Base.{
  ◌+◌, ◌%◌, ◌*◌, ◌≡◌, ◌≤◌, ◌<◌, ◌↔◌, ◌⊎◌, refl, false, [], ◌∷◌, ◌++◌, some, codes, arith,
}
use internal_ai_gateway.Sse.{take_next_event}
use internal_ai_gateway.Sse.Chunks.{take_next_event-append}
use internal_ai_gateway.Streams.{
  thread_step, ActiveStreamTracker, Reachable, new, act, idle, trying, holding,
}
use internal_ai_gateway.Streams.Counter.{active_streams_bounded, held_by}
use internal_ai_gateway.TokenUsage.Windows.{
  daily_usage_window_start, weekly_usage_window_start, daily_window_seconds, weekly_window_seconds,
  monday_week_offset_seconds, daily_usage_window, weekly_usage_window,
  token_usage_ttl_epoch_seconds,
}
use internal_ai_gateway.TokenUsage.Windows.Laws.{
  weekly_usage_window_start_bounds, daily_usage_window-eq_iff, weekly_usage_window-eq_iff,
  token_usage_ttl_outlives,
}

take_next_event-append_example :
    take_next_event (codes "data: a" ++ 13 ∷ 13 ∷ codes "d" ++ 10 ∷ 10 ∷ [])
    ≡ some (codes "data: a", codes "d" ++ 10 ∷ 10 ∷ [])
unfolding take_next_event
take_next_event-append_example =
    take_next_event-append (codes "data: a" ++ 13 ∷ 13 ∷ codes "d") (10 ∷ 10 ∷ []) (codes "data: a")
      (codes "d") refl

-- Two threads, of which the first has started a stream and the second has seen the counter before.
abbrev started : ActiveStreamTracker
started = record {
  active_streams = 1;
  threads = holding (record { released = false }) ∷ trying 0 ∷ [];
}

started_reachable : Reachable 1 started
unfolding thread_step
started_reachable = act 0 [] (trying 0 ∷ []) (trying 0) false (
    act 0 (trying 0 ∷ []) [] idle false
      (act 0 [] (idle ∷ []) idle false (new (idle ∷ idle ∷ []) (refl, (refl, tt)))))

active_streams_bounded_example :
    (started.active_streams ≡ held_by started.threads) × (started.active_streams ≤ 1)
active_streams_bounded_example = active_streams_bounded 1 started started_reachable

weekly_usage_window_start_bounds_example :
    (weekly_usage_window_start 900000 ≤ 900000)
    × (900000 < weekly_usage_window_start 900000 + weekly_window_seconds)
    × (((4 * daily_window_seconds ≤ 900000)
          × ((weekly_usage_window_start 900000 + monday_week_offset_seconds) % weekly_window_seconds
              ≡ 0))
        ⊎ ((900000 < 4 * daily_window_seconds) × (weekly_usage_window_start 900000 ≡ 0)))
weekly_usage_window_start_bounds_example = weekly_usage_window_start_bounds 900000 (omega arith)

daily_usage_window-eq_iff_example :
    (daily_usage_window 90000 ≡ daily_usage_window 100000)
    ↔ (daily_usage_window_start 90000 ≡ daily_usage_window_start 100000)
daily_usage_window-eq_iff_example = daily_usage_window-eq_iff 90000 100000

weekly_usage_window-eq_iff_example :
    (weekly_usage_window 90000 ≡ weekly_usage_window 900000)
    ↔ (weekly_usage_window_start 90000 ≡ weekly_usage_window_start 900000)
weekly_usage_window-eq_iff_example = weekly_usage_window-eq_iff 90000 900000

token_usage_ttl_outlives_example :
    (90000 + daily_window_seconds
      < token_usage_ttl_epoch_seconds (daily_usage_window_start 90000) daily_window_seconds + 1)
    × (90000 + weekly_window_seconds
        < token_usage_ttl_epoch_seconds (weekly_usage_window_start 90000) weekly_window_seconds + 1)
token_usage_ttl_outlives_example = token_usage_ttl_outlives 90000 (omega arith)
