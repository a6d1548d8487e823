-- ===== src/Gateway/Settles.antt =====
-- A reservation is settled by the handler or handed to one task, and so is the guard of the stream.
use internal_ai_gateway.Base.{
  ℕ, ◌+◌, ◌≡◌, ◌⊎◌, inl, inr, refl, ◌∙◌, ◌&&◌, Bool, true, false, Bool-cases, Option-cases,
  Result-cases, List, ◌∷◌, Option, none, some, Text, codes, lookup, map_option, leb, arith,
}
use internal_ai_gateway.Base.Actions.{◌>>=◌, ◌>>◌, map_err_of}
use internal_ai_gateway.Services.{Services}
use internal_ai_gateway.EngineerAuth.{AuthenticatedEngineer}
use internal_ai_gateway.Auth.{ApiKeyHasher, authenticate_headers}
use internal_ai_gateway.RateLimit.{check_and_record}
use internal_ai_gateway.Streams.{Guard, release}
use internal_ai_gateway.TokenReservation.{TokenReservation, reserve, reconcile}
use internal_ai_gateway.Headers.{HeaderMap}
use internal_ai_gateway.Anthropic.Usage.{is_success}
use internal_ai_gateway.Gateway.{
  ProviderRequest, ProviderResponse, Http, Provider, Request, Gateway, AppState, provider_request,
  settle, send, respond_whole, respond, forward_reserved, drops, forward, handle, start_stream,
  try_start_owned, with_services, on_services, drop_guard,
}
use internal_ai_gateway.Gateway.Sends.{try_start_owned_lem, start_then_forward}

counts :
    (max failures n : ℕ)
    → (leb max n ≡ true → (try_start_owned max failures n).1 ≡ n)
      × (leb max n ≡ false → (try_start_owned max failures n).1 ≡ n + 1)
counts max failures n = rw (try_start_owned_lem max failures n) (λ l. rw l refl, λ l. rw l refl)

releases : (m n : ℕ) → m ≡ n + 1 → (release (record { released = false }) m).1 ≡ n
unfolding release
releases m n h = ground arith

module _ {V B E : Type 0} (sv : Services) (http : Http V sv.State) (p : Provider B E sv.State)
    (app : AppState) where
  -- The task that drains the stream has the reservation and the guard.
  abbrev pub IsHandedOver : TokenReservation → Guard → (g h : Gateway V sv.State) → Type 0
  IsHandedOver reservation guard g h =
      (h.spawned ≡ (reservation, guard) ∷ g.spawned) × (h.active_streams ≡ g.active_streams)

  -- The reservation was settled with the tokens as the last action on the services, and the guard was
  -- dropped.
  abbrev pub IsSettled :
      TokenReservation → Guard → Option ℕ → sv.State → (g h : Gateway V sv.State) → Type 0
  IsSettled reservation guard actual_tokens services g h =
      (h.services ≡ (reconcile sv app.reservation_manager reservation actual_tokens services).1)
      × (h.spawned ≡ g.spawned)
      × (h.active_streams ≡ (release guard g.active_streams).1)

  -- What the tokens of a whole response are: unknown if it cannot be read.
  abbrev pub tokens_of : ProviderResponse V → Option (List ℕ) → Option ℕ
  tokens_of answer none = none
  tokens_of answer (some body) = p.completed_response_tokens answer.status body

  -- A request that was answered with success is handed over if it asked for a stream; all others are
  -- settled, with no tokens if there was no answer.
  abbrev IsFinished :
      TokenReservation
      → Guard
      → Bool
      → Option (ProviderResponse V)
      → sv.State
      → (g h : Gateway V sv.State) → Type 0
  IsFinished reservation guard streaming_request none services g h =
      IsSettled reservation guard none services g h
  IsFinished reservation guard streaming_request (some answer) services g h =
      ((streaming_request && is_success answer.status ≡ true) × IsHandedOver reservation guard g h)
      ⊎ ((streaming_request && is_success answer.status ≡ false)
          × (let (read, after) = http.bytes answer services in
              IsSettled reservation guard (tokens_of answer read) after g h))

  respond_whole-IsSettled :
      (reservation : TokenReservation) (guard : Guard) (answer : ProviderResponse V)
      (g : Gateway V sv.State)
      → let (read, after) = http.bytes answer g.services in
        IsSettled reservation guard
          (tokens_of answer read)
          after
          g
          (respond_whole sv http p app reservation guard answer g).1
  unfolding respond_whole settle drop_guard
  respond_whole-IsSettled reservation guard answer g =
      elim (Option-cases (http.bytes answer g.services).0) [
        | inl q ↦ rw (q, respond_whole) (refl, refl, refl)
        | inr (body, q) ↦ rw (q, respond_whole) (refl, refl, refl)
      ]

  respond-IsFinished :
      (reservation : TokenReservation) (guard : Guard) (streaming_request : Bool)
      (answer : Option (ProviderResponse V)) (g : Gateway V sv.State)
      → IsFinished reservation guard streaming_request answer g.services g
          (respond sv http p app reservation guard streaming_request answer g).1
  unfolding respond settle drop_guard
  respond-IsFinished reservation guard streaming_request none g = (refl, refl, refl)
  respond-IsFinished reservation guard streaming_request (some answer) g =
      elim (Bool-cases (streaming_request && is_success answer.status)) [
        | inl q ↦ inl (q, rw (q, respond) (refl, refl))
        | inr q ↦ inr (q, rw (q, respond) (respond_whole-IsSettled reservation guard answer g))
      ]

  since_sent :
      (reservation : TokenReservation) (guard : Guard) (streaming_request : Bool)
      (answer : Option (ProviderResponse V)) (services : sv.State) (request : ProviderRequest V)
      (g h : Gateway V sv.State)
      → IsFinished reservation guard streaming_request answer services
          (send sv http p app request g).1
          h
      → IsFinished reservation guard streaming_request answer services g h
  unfolding send
  since_sent reservation guard streaming_request none services request g h x = x
  since_sent reservation guard streaming_request (some answer) services request g h x = x

  -- A handler that runs to its end behind the reservation settles it or hands it to one task.
  forward_reserved-IsFinished :
      (guard : Guard) (headers : HeaderMap V) (body : List ℕ) (streaming_request : Bool)
      (token_budget : ℕ) (reservation : TokenReservation) (g : Gateway V sv.State)
      → let (answer, services) =
          http.send (provider_request sv http p app headers body) g.services in
        IsFinished reservation guard streaming_request answer services g
          (forward_reserved sv http p app guard headers
            (body, streaming_request, token_budget)
            reservation
            g).1
  unfolding forward_reserved send
  forward_reserved-IsFinished guard headers body streaming_request token_budget reservation g =
      let (answer, h) = send sv http p app (provider_request sv http p app headers body) g in
      since_sent reservation guard streaming_request answer h.services
        (provider_request sv http p app headers body) g _
        (respond-IsFinished reservation guard streaming_request answer h)

  -- Either nothing of the counter and the tasks changed, or one stream more is active for one task more,
  -- whose guard holds it.
  abbrev pub IsBalanced : (g h : Gateway V sv.State) → Type 0
  IsBalanced g h =
      ((h.active_streams ≡ g.active_streams) × (h.spawned ≡ g.spawned))
      ⊎ ((h.active_streams ≡ g.active_streams + 1)
          × (reservation : TokenReservation) × (h.spawned
              ≡ (reservation, record { released = false }) ∷ g.spawned))

  -- What the handler does with a guard that was just given to it.
  abbrev pub IsReturned : (g h : Gateway V sv.State) → Type 0
  IsReturned g h =
      ((h.active_streams ≡ (release (record { released = false }) g.active_streams).1)
        × (h.spawned ≡ g.spawned))
      ⊎ ((h.active_streams ≡ g.active_streams)
          × (reservation : TokenReservation) × (h.spawned
              ≡ (reservation, record { released = false }) ∷ g.spawned))

  finished-IsReturned :
      (reservation : TokenReservation) (streaming_request : Bool)
      (answer : Option (ProviderResponse V)) (services : sv.State) (g h : Gateway V sv.State)
      → IsFinished reservation (record { released = false }) streaming_request answer services g h
      → IsReturned g h
  finished-IsReturned reservation streaming_request none services g h (_, s, n) = inl (n, s)
  finished-IsReturned reservation streaming_request (some answer) services g h (inl (_, (s, n))) =
      inr (n, reservation, s)
  finished-IsReturned reservation streaming_request (some answer) services g h
        (inr (_, (_, s, n))) =
      inl (n, s)

  forward-IsReturned :
      (request : Request V B) (engineer : AuthenticatedEngineer) (g : Gateway V sv.State)
      → IsReturned g (forward sv http p app (record { released = false }) request engineer g).1
  unfolding forward drops drop_guard
  forward-IsReturned request engineer g =
      elim (Result-cases (p.prepare request.body g.services).0) [
        | inr (e, q) ↦ rw (q, forward, drops) (inl (refl, refl))
        | inl ((body, streaming_request, token_budget), q) ↦
            let prepared = (p.prepare request.body g.services).1 in
            elim (Result-cases
              (reserve sv app.reservation_manager engineer token_budget prepared).0) [
                | inr (e, r) ↦ rw (q, forward, drops, map_err_of, on_services, r) (inl (refl, refl))
                | inl (reservation, r) ↦
                    rw (q, forward, drops, map_err_of, on_services, r)
                      (finished-IsReturned reservation streaming_request _ _ _ _ (
                        forward_reserved-IsFinished (record { released = false }) request.headers
                          body streaming_request token_budget reservation _))
              ]
      ]

  started-IsBalanced :
      (request : Request V B) (engineer : AuthenticatedEngineer) (h : Gateway V sv.State)
      → IsBalanced h (start_then_forward sv http p app request engineer h).1
  unfolding start_stream
  started-IsBalanced request engineer h =
      elim (Bool-cases (leb app.max_active_streams h.active_streams)) [
        | inl l ↦
            rw
              (
                ◌>>=◌,
                start_stream,
                try_start_owned_lem app.max_active_streams http.exchange_failures h.active_streams,
                l,
              )
              (inl
                ((counts app.max_active_streams http.exchange_failures h.active_streams).0 l, refl))
        | inr l ↦
            let e =
              try_start_owned_lem app.max_active_streams http.exchange_failures h.active_streams in
            rw (◌>>=◌, start_stream, e, l)
              (elim (forward-IsReturned request engineer (start_stream sv http p app h).1) [
                | inl (n, s) ↦ inl (
                  n
                      ∙ releases _ h.active_streams
                          ((counts _ http.exchange_failures h.active_streams).1 l),
                  s,
                )
                | inr (n, reservation, s) ↦
                    inr (n ∙ (counts _ http.exchange_failures h.active_streams).1 l, reservation, s)
              ])
      ]

  -- However a request ends, the counter of active streams is as before, or it is one more for the one task
  -- that was spawned, which holds an unreleased guard.
  pub handle-IsBalanced :
      (hash_api_key : ApiKeyHasher → Text → Text) (request : Request V B) (g : Gateway V sv.State)
      → IsBalanced g (handle sv http p app hash_api_key request g).1
  unfolding handle
  handle-IsBalanced hash_api_key request g =
      let first =
        authenticate_headers http.is_whitespace sv hash_api_key app.hasher app.engineer_auth
          (map_option http.to_str (lookup (codes "x-api-key") request.headers)) g.services in
      elim (Result-cases first.0) [
        | inr (e, q) ↦ rw (q, handle, ◌>>=◌, map_err_of, on_services) (inl (refl, refl))
        | inl (engineer, q) ↦
            let second = check_and_record sv app.rate_limiter engineer.user_id first.1 in
            elim (Result-cases second.0) [
              | inr (e, r) ↦
                  rw (q, handle, ◌>>=◌, ◌>>◌, map_err_of, on_services, r) (inl (refl, refl))
              | inl (decision, r) ↦
                  rw (q, handle, ◌>>=◌, ◌>>◌, map_err_of, on_services, r)
                    (started-IsBalanced request engineer
                      (with_services second.1 (with_services first.1 g)))
            ]
      ]
