-- ===== src/Gateway/Streaming.antt =====
-- services/proxy/src/anthropic.rs and services/proxy/src/openai.rs: the task of `usage_recording_stream`,
-- which drains a provider's stream, forwards it to the client as long as the client listens, and settles
-- the reservation at the end. Where the task awaits, a `Turn` says what it finds.
pub mod Laws
use internal_ai_gateway.Base.{
  ℕ, Bool, true, false, List, [], ◌∷◌, Option, none, some, if◌then◌else◌, Result, ok, err, map_err,
}
use internal_ai_gateway.Services.{Services}
use internal_ai_gateway.Sse.Drain.{observe_chunk}
use internal_ai_gateway.Streams.{Guard, release}
use internal_ai_gateway.TokenReservation.{TokenReservation, TokenReservationManager, reconcile}
use internal_ai_gateway.TokenReservation.Writes.{TokenReservationError}

-- What becomes of `sender.send(..)`: the client takes the item, the client is gone, or the shutdown comes
-- first.
pub data SendResult : Type 0 where
  delivered disconnected cancelled : SendResult

-- What the loop finds at `provider_stream.next()`: the shutdown, a chunk, or an error, with what becomes of
-- it behind. A list of turns that ends is the end of the stream.
pub data Turn : Type 0 where
  shutdown : Turn
  chunk : List ℕ → SendResult → Turn
  failed : SendResult → Turn

-- `ProxyStreamItem`.
pub data ProxyStreamItem : Type 0 where
  bytes : List ℕ → ProxyStreamItem
  error : ProxyStreamItem

-- The error of a settlement; `panicked` stands for the `expect` on a reservation that was taken.
pub data RecordError : Type 0 where
  panicked : RecordError
  token_reservation : TokenReservationError → RecordError

-- `AnthropicStreamUsageRecorder` and `OpenAiStreamUsageRecorder`, over what they observe.
pub record StreamUsageRecorder (U : Type 0) : Type 0 where
  pub buffered_event : List ℕ
  pub recording_attempted : Bool
  pub reservation : Option TokenReservation
  pub usage : U

module _ {U : Type 0} (no_usage : U) (observe_event : U → List ℕ → U)
    (observed_tokens : U → Option ℕ) where
  unfoldable pub new : TokenReservation → StreamUsageRecorder U
  new reservation = record {
    buffered_event = [];
    recording_attempted = false;
    reservation = some reservation;
    usage = no_usage;
  }

  unfoldable pub observe : StreamUsageRecorder U → List ℕ → StreamUsageRecorder U
  observe r content =
      let (usage, buffered_event) =
        observe_chunk observe_event (r.usage, r.buffered_event) content in
      record {
        buffered_event = buffered_event;
        recording_attempted = r.recording_attempted;
        reservation = r.reservation;
        usage = usage;
      }

  -- The loop, with whether the client still listens; the items that it gets, in order.
  unfoldable pub drain_provider :
      Bool → StreamUsageRecorder U → List Turn → StreamUsageRecorder U × List ProxyStreamItem
  unfolding observe
  drain_provider downstream_connected r [] = (r, [])
  drain_provider downstream_connected r (shutdown ∷ turns) = (r, [])
  drain_provider false r (chunk content sent ∷ turns) =
      drain_provider false (observe r content) turns
  drain_provider true r (chunk content delivered ∷ turns) =
      let (recorder, items) = drain_provider true (observe r content) turns in
      (recorder, bytes content ∷ items)
  drain_provider true r (chunk content disconnected ∷ turns) =
      drain_provider false (observe r content) turns
  drain_provider true r (chunk content cancelled ∷ turns) = (observe r content, [])
  drain_provider true r (failed delivered ∷ turns) = (r, error ∷ [])
  drain_provider downstream_connected r (failed sent ∷ turns) = (r, [])

  module _ (sv : Services) (manager : TokenReservationManager) where
    abbrev taken : StreamUsageRecorder U → Bool → StreamUsageRecorder U
    taken r recording_attempted = record {
      buffered_event = r.buffered_event;
      recording_attempted = recording_attempted;
      reservation = none;
      usage = r.usage;
    }

    unfoldable pub record_observed_usage :
        StreamUsageRecorder U
        → sv.State
        → (Result RecordError (Unit {0}) × StreamUsageRecorder U) × sv.State
    record_observed_usage r a = elim r.reservation [
      | none ↦ ((err panicked, taken r true), a)
      | some reservation ↦
          let (result, b) = reconcile sv manager reservation (observed_tokens r.usage) a in
          ((map_err token_reservation result, taken r true), b)
    ]

    -- The drop of the recorder: without a runtime the reservation stays charged, else a task settles it.
    unfoldable pub drop_recorder : Bool → StreamUsageRecorder U → sv.State → sv.State
    drop_recorder has_runtime r a = if r.recording_attempted then a else elim r.reservation [
      | none ↦ a
      | some reservation ↦ elim has_runtime [
        | true ↦ (reconcile sv manager reservation (observed_tokens r.usage) a).1
        | false ↦ a
      ]
    ]

    -- The whole task. The recorder and the guard are dropped at its end.
    unfoldable pub run_task :
        TokenReservation → Guard → List Turn → sv.State → ℕ → List ProxyStreamItem × sv.State × ℕ
    unfolding new drain_provider record_observed_usage drop_recorder release
    run_task reservation guard turns a active_streams =
        let (recorder, items) = drain_provider true (new reservation) turns in
        let ((_, recorder), b) = record_observed_usage recorder a in
        (items, drop_recorder true recorder b, (release guard active_streams).1)

    -- A task that is dropped while it awaits a turn after those that it had: the recorder and the guard are
    -- dropped.
    unfoldable pub drop_task :
        Bool → TokenReservation → Guard → List Turn → sv.State → ℕ → sv.State × ℕ
    unfolding new drain_provider drop_recorder release
    drop_task has_runtime reservation guard turns a active_streams =
        let (recorder, _) = drain_provider true (new reservation) turns in
        (drop_recorder has_runtime recorder a, (release guard active_streams).1)
