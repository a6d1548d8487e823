-- ===== src/Gateway/Streaming/Laws.antt =====
-- A stream's reservation is settled once, with the usage that the provider reported, whatever the client
-- does and however the bytes were cut.
use internal_ai_gateway.Base.{
  ℕ, ◌≡◌, ◌⊎◌, inl, inr, refl, ap, sym, ◌∙◌, Bool, true, false, List, [], ◌∷◌, ◌++◌, map, Option,
  some, All,
}
use internal_ai_gateway.Services.{Services}
use internal_ai_gateway.Sse.Drain.{observe_chunks, concat}
use internal_ai_gateway.Sse.Drain.Laws.{observe_chunks-cut}
use internal_ai_gateway.Streams.{Guard, release}
use internal_ai_gateway.TokenReservation.{TokenReservation, TokenReservationManager, reconcile}
use internal_ai_gateway.Gateway.Streaming.{
  delivered, disconnected, cancelled, Turn, shutdown, chunk, failed, ProxyStreamItem, bytes, error,
  StreamUsageRecorder, new, observe, drain_provider, record_observed_usage, drop_recorder, run_task,
  drop_task,
}

-- The chunks that arrive before the end, a failure or the shutdown.
abbrev pub chunks : List Turn → List (List ℕ)
chunks [] = []
chunks (shutdown ∷ turns) = []
chunks (chunk content sent ∷ turns) = content ∷ chunks turns
chunks (failed sent ∷ turns) = []

-- The shutdown does not come while a chunk is sent to the client.
abbrev pub IsSentThrough : Turn → Type 0
IsSentThrough (chunk content cancelled) = ⊥
IsSentThrough _ = Unit

-- What a client is owed: each chunk that it takes, up to the first that it does not, and the error that it
-- takes.
unfoldable pub taken_items : List Turn → List ProxyStreamItem
taken_items [] = []
taken_items (shutdown ∷ turns) = []
taken_items (chunk content delivered ∷ turns) = bytes content ∷ taken_items turns
taken_items (chunk content disconnected ∷ turns) = []
taken_items (chunk content cancelled ∷ turns) = []
taken_items (failed delivered ∷ turns) = error ∷ []
taken_items (failed disconnected ∷ turns) = []
taken_items (failed cancelled ∷ turns) = []

module _ {U : Type 0} (no_usage : U) (observe_event : U → List ℕ → U)
    (observed_tokens : U → Option ℕ) where
  abbrev Observed : StreamUsageRecorder U → StreamUsageRecorder U → List (List ℕ) → Type 0
  Observed r q contents =
      ((q.usage, q.buffered_event)
        ≡ observe_chunks observe_event (r.usage, r.buffered_event) contents)
      × (q.reservation ≡ r.reservation)
      × (q.recording_attempted ≡ r.recording_attempted)

  drain_provider-Observed :
      (connected : Bool) (r : StreamUsageRecorder U) (turns : List Turn)
      → All IsSentThrough turns
      → Observed r
          (drain_provider no_usage observe_event observed_tokens connected r turns).0
          (chunks turns)
  unfolding drain_provider observe observe_chunks
  drain_provider-Observed connected r [] h = (refl, refl, refl)
  drain_provider-Observed connected r (shutdown ∷ turns) h = (refl, refl, refl)
  drain_provider-Observed true r (chunk content delivered ∷ turns) h =
      drain_provider-Observed true (observe no_usage observe_event observed_tokens r content) turns
        h.1
  drain_provider-Observed true r (chunk content disconnected ∷ turns) h =
      drain_provider-Observed false (observe no_usage observe_event observed_tokens r content) turns
        h.1
  drain_provider-Observed true r (chunk content cancelled ∷ turns) h = absurd h.0
  drain_provider-Observed false r (chunk content sent ∷ turns) h =
      drain_provider-Observed false (observe no_usage observe_event observed_tokens r content) turns
        h.1
  drain_provider-Observed true r (failed delivered ∷ turns) h = (refl, refl, refl)
  drain_provider-Observed true r (failed disconnected ∷ turns) h = (refl, refl, refl)
  drain_provider-Observed true r (failed cancelled ∷ turns) h = (refl, refl, refl)
  drain_provider-Observed false r (failed sent ∷ turns) h = (refl, refl, refl)

  -- The items of the client are the first of the chunks, in their order and each once, and then an error
  -- at most.
  abbrev pub IsPassedOn : List ProxyStreamItem → List (List ℕ) → Type 0
  IsPassedOn items contents =
      (passed : List (List ℕ)) × (rest : List (List ℕ)) × (contents ≡ passed ++ rest)
      × ((items ≡ map bytes passed) ⊎ ((items ≡ map bytes passed ++ error ∷ []) × (rest ≡ [])))

  cons_passed :
      (content : List ℕ) (items : List ProxyStreamItem) (contents : List (List ℕ))
      → IsPassedOn items contents
      → IsPassedOn (bytes content ∷ items) (content ∷ contents)
  cons_passed content items contents (passed, rest, e, inl q) =
      (content ∷ passed, rest, ap (λ x. content ∷ x) e, inl (ap (λ x. bytes content ∷ x) q))
  cons_passed content items contents (passed, rest, e, inr (q, n)) =
      (content ∷ passed, rest, ap (λ x. content ∷ x) e, inr (ap (λ x. bytes content ∷ x) q, n))

  unheard :
      (r : StreamUsageRecorder U) (turns : List Turn)
      → (drain_provider no_usage observe_event observed_tokens false r turns).1 ≡ []
  unfolding drain_provider
  unheard r [] = refl
  unheard r (shutdown ∷ turns) = refl
  unheard r (chunk content sent ∷ turns) =
      unheard (observe no_usage observe_event observed_tokens r content) turns
  unheard r (failed sent ∷ turns) = refl

  drain_provider-taken_items :
      (r : StreamUsageRecorder U) (turns : List Turn)
      → (drain_provider no_usage observe_event observed_tokens true r turns).1 ≡ taken_items turns
  unfolding drain_provider taken_items
  drain_provider-taken_items r [] = refl
  drain_provider-taken_items r (shutdown ∷ turns) = refl
  drain_provider-taken_items r (chunk content delivered ∷ turns) =
      ap (λ items. bytes content ∷ items)
        (drain_provider-taken_items (observe no_usage observe_event observed_tokens r content)
          turns)
  drain_provider-taken_items r (chunk content disconnected ∷ turns) =
      unheard (observe no_usage observe_event observed_tokens r content) turns
  drain_provider-taken_items r (chunk content cancelled ∷ turns) = refl
  drain_provider-taken_items r (failed delivered ∷ turns) = refl
  drain_provider-taken_items r (failed disconnected ∷ turns) = refl
  drain_provider-taken_items r (failed cancelled ∷ turns) = refl

  pub drain_provider-IsPassedOn :
      (r : StreamUsageRecorder U) (turns : List Turn)
      → IsPassedOn
          (drain_provider no_usage observe_event observed_tokens true r turns).1
          (chunks turns)
  unfolding drain_provider
  drain_provider-IsPassedOn r [] = ([], [], refl, inl refl)
  drain_provider-IsPassedOn r (shutdown ∷ turns) = ([], [], refl, inl refl)
  drain_provider-IsPassedOn r (chunk content delivered ∷ turns) =
      cons_passed content _ (chunks turns)
        (drain_provider-IsPassedOn (observe no_usage observe_event observed_tokens r content) turns)
  drain_provider-IsPassedOn r (chunk content disconnected ∷ turns) = (
    [],
    content ∷ chunks turns,
    refl,
    inl (unheard (observe no_usage observe_event observed_tokens r content) turns),
  )
  drain_provider-IsPassedOn r (chunk content cancelled ∷ turns) =
      ([], content ∷ chunks turns, refl, inl refl)
  drain_provider-IsPassedOn r (failed delivered ∷ turns) = ([], [], refl, inr (refl, refl))
  drain_provider-IsPassedOn r (failed disconnected ∷ turns) = ([], [], refl, inl refl)
  drain_provider-IsPassedOn r (failed cancelled ∷ turns) = ([], [], refl, inl refl)

  module _ (sv : Services) (manager : TokenReservationManager) where
    -- The tokens that a stream's chunks report.
    abbrev pub reported : List (List ℕ) → Option ℕ
    reported contents = observed_tokens (observe_chunks observe_event (no_usage, []) contents).0

    recorded :
        (r : StreamUsageRecorder U) (reservation : TokenReservation) (a : sv.State)
        → r.reservation ≡ some reservation
        → (let ((_, q), b) =
              record_observed_usage no_usage observe_event observed_tokens sv manager r a in
            drop_recorder no_usage observe_event observed_tokens sv manager true q b)
          ≡ (reconcile sv manager reservation (observed_tokens r.usage) a).1
    unfolding record_observed_usage drop_recorder
    recorded r reservation a h = rw (h, record_observed_usage) refl

    dropped :
        (r : StreamUsageRecorder U) (reservation : TokenReservation) (a : sv.State)
        → r.reservation ≡ some reservation
        → r.recording_attempted ≡ false
        → drop_recorder no_usage observe_event observed_tokens sv manager true r a
          ≡ (reconcile sv manager reservation (observed_tokens r.usage) a).1
    unfolding drop_recorder
    dropped r reservation a h k = rw (k, h, drop_recorder) refl

    -- A task that runs to its end, where the shutdown does not come while a chunk is sent, settles its
    -- reservation exactly once, with the tokens that the chunks report that arrived, whether the client
    -- takes them or is gone, and releases the guard. The client gets every chunk up to the first that it
    -- does not take, and an error at most behind all chunks.
    pub run_task-settles :
        (reservation : TokenReservation) (guard : Guard) (turns : List Turn) (a : sv.State)
        (active_streams : ℕ)
        → All IsSentThrough turns
        → let (items, b, left) =
            run_task no_usage observe_event observed_tokens sv manager reservation guard turns a
              active_streams in
          (b ≡ (reconcile sv manager reservation (reported (chunks turns)) a).1)
          × (left ≡ (release guard active_streams).1)
          × (items ≡ taken_items turns)
          × IsPassedOn items (chunks turns)
    unfolding run_task new record_observed_usage drop_recorder
    run_task-settles reservation guard turns a active_streams h =
        let start = new no_usage observe_event observed_tokens reservation in
        let drained = (drain_provider no_usage observe_event observed_tokens true start turns).0 in
        let (e, held, _) = drain_provider-Observed true start turns h in
        (
          recorded drained reservation a held
              ∙ ap (λ x. (reconcile sv manager reservation (observed_tokens x.0) a).1) e,
          refl,
          drain_provider-taken_items start turns,
          drain_provider-IsPassedOn start turns,
        )

    -- A task that is dropped while the runtime still runs settles its reservation exactly once too, with
    -- the tokens that the chunks report that it had until then, and releases the guard.
    pub drop_task-settles :
        (reservation : TokenReservation) (guard : Guard) (turns : List Turn) (a : sv.State)
        (active_streams : ℕ)
        → All IsSentThrough turns
        → drop_task no_usage observe_event observed_tokens sv manager true reservation guard turns a
            active_streams
          ≡ (
            (reconcile sv manager reservation (reported (chunks turns)) a).1,
            (release guard active_streams).1,
          )
    unfolding drop_task new
    drop_task-settles reservation guard turns a active_streams h =
        let start = new no_usage observe_event observed_tokens reservation in
        let drained = (drain_provider no_usage observe_event observed_tokens true start turns).0 in
        let (e, held, attempted) = drain_provider-Observed true start turns h in
        ap (λ b. (b, (release guard active_streams).1))
          (dropped drained reservation a held attempted
            ∙ ap (λ x. (reconcile sv manager reservation (observed_tokens x.0) a).1) e)

    -- Two tasks that get the same bytes settle alike, however the bytes are cut into chunks and whenever
    -- either client leaves.
    pub run_task-cut :
        (reservation : TokenReservation) (guard : Guard) (turns others : List Turn) (a : sv.State)
        (active_streams : ℕ)
        → All IsSentThrough turns
        → All IsSentThrough others
        → concat (chunks turns) ≡ concat (chunks others)
        → (run_task no_usage observe_event observed_tokens sv manager reservation guard turns a
            active_streams).1
          ≡ (run_task no_usage observe_event observed_tokens sv manager reservation guard others a
              active_streams).1
    run_task-cut reservation guard turns others a active_streams h k e =
        let (services, _, _, _) = run_task-settles reservation guard turns a active_streams h in
        let (services', _, _, _) = run_task-settles reservation guard others a active_streams k in
        let same = observe_chunks-cut observe_event no_usage (chunks turns) (chunks others) e in
        services
        ∙ ap (λ x. (reconcile sv manager reservation (observed_tokens x.0) a).1) same
        ∙ sym services'
