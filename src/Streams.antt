-- ===== src/Streams.antt =====
-- services/proxy/src/streams.rs: the counter of active streams, which its clients' threads share. The
-- atomic operations of one thread interleave with those of the others in any order; a borrowed and an
-- owned guard behave alike.
pub mod Counter
use internal_ai_gateway.Base.{
  ℕ, ◌≡◌, All, suc, ◌+◌, ◌-◌, Bool, true, false, not, ◌&&◌, List, [], ◌∷◌, ◌++◌, u64_max, leb, ◌==◌,
  if◌then◌else◌,
}

-- `fetch_sub(1)` on a `usize`, which wraps around.
abbrev pub fetch_sub : ℕ → ℕ
fetch_sub active_streams = if active_streams == 0 then u64_max else active_streams - 1

pub record Guard : Type 0 where
  pub released : Bool

-- `release` of a guard, with the tracker's counter.
unfoldable pub release : Guard → ℕ → Guard × ℕ
release guard active_streams =
    if guard.released
    then (guard, active_streams)
    else (record { released = true }, fetch_sub active_streams)

-- What a thread does with the tracker: before its load, in the loop of `try_start_stream` with its
-- `current`, refused, or with the guard that it was given, which is dropped at the end.
pub data Phase : Type 0 where
  idle refused dropped : Phase
  trying : ℕ → Phase
  holding : Guard → Phase

-- One atomic action of a thread, by what it sees of the counter. A weak exchange may fail although the
-- counter is as expected. A guard is released by `finish` or by its drop, which the drop after
-- `finish` does again.
unfoldable pub thread_step : ℕ → Bool → Phase → ℕ → Phase × ℕ
unfolding release
thread_step max_active_streams fails idle active_streams = (trying active_streams, active_streams)
thread_step max_active_streams fails refused active_streams = (refused, active_streams)
thread_step max_active_streams fails dropped active_streams = (dropped, active_streams)
thread_step max_active_streams fails (trying current) active_streams =
    if leb max_active_streams current
    then (refused, active_streams)
    else if not fails && (active_streams == current)
    then (holding (record { released = false }), current + 1)
    else (trying active_streams, active_streams)
thread_step max_active_streams fails (holding guard) active_streams =
    let (after, left) = release guard active_streams in
    (if guard.released then dropped else holding after, left)

-- `ActiveStreamTracker`, with the threads that use it.
pub record ActiveStreamTracker : Type 0 where
  pub active_streams : ℕ
  pub threads : List Phase

abbrev pub IsIdle : List Phase → Type 0
IsIdle threads = All (λ p. p ≡ idle) threads

-- Any thread may act next.
pub data Reachable (max_active_streams : ℕ) : ActiveStreamTracker → Type 0 where
  new :
      (threads : List Phase)
      → IsIdle threads
      → Reachable max_active_streams (record { active_streams = 0; threads = threads })
  act :
      (active_streams : ℕ) (before after : List Phase) (p : Phase) (fails : Bool)
      → Reachable max_active_streams
          (record { active_streams = active_streams; threads = before ++ p ∷ after })
      → Reachable max_active_streams (record {
        active_streams = (thread_step max_active_streams fails p active_streams).1;
        threads = before ++ (thread_step max_active_streams fails p active_streams).0 ∷ after;
      })
