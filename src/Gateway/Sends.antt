-- ===== src/Gateway/Sends.antt =====
-- What reaches a provider.
use internal_ai_gateway.Base.{
  ℕ, zero, suc, ◌∙◌, ◌+◌, ◌<◌, ◌≤◌, if◌then◌else◌, arith, ◌≡◌, ◌⊎◌, inl, inr, refl, ap, ◌&&◌, Bool,
  false, Bool-cases, Option-cases, Result-cases, List, ◌∷◌, Option, none, some, Text, codes, lookup,
  map_option, Result, ok, err, leb,
}
use internal_ai_gateway.Base.Actions.{Action, ◌>>=◌, ◌>>◌, map_err_of}
use internal_ai_gateway.Services.{Services}
use internal_ai_gateway.EngineerAuth.{AuthenticatedEngineer}
use internal_ai_gateway.Auth.{ApiKeyHasher, AuthError, authenticate_headers}
use internal_ai_gateway.RateLimit.{RateLimitDecision, RateLimitError, check_and_record}
use internal_ai_gateway.Streams.{Guard, refused, trying, holding, thread_step}
use internal_ai_gateway.TokenReservation.{TokenReservation, reserve}
use internal_ai_gateway.TokenReservation.Writes.{TokenReservationError}
use internal_ai_gateway.Headers.{HeaderMap}
use internal_ai_gateway.Anthropic.Usage.{is_success}
use internal_ai_gateway.Gateway.{
  ProviderRequest, ProviderResponse, Http, Provider, Request, Response, RouteError, Gateway,
  AppState, provider_request, settle, send, respond_whole, respond, forward_reserved, drops,
  forward, handle, proxy, start_stream, exchange, try_start_owned, with_services, on_services,
  drop_guard,
}

-- The loop ends where it does without the failures.
refused-exchange :
    (max_active_streams failures active_streams : ℕ)
    → exchange max_active_streams failures refused active_streams ≡ (refused, active_streams)
unfolding exchange thread_step
refused-exchange max_active_streams zero active_streams = refl
refused-exchange max_active_streams (suc failures) active_streams =
    refused-exchange max_active_streams failures active_streams

trying-exchange :
    (max_active_streams failures active_streams : ℕ)
    → exchange max_active_streams failures (trying active_streams) active_streams ≡ (
        if leb max_active_streams active_streams
        then (refused, active_streams)
        else (holding (record { released = false }), active_streams + 1))
unfolding exchange thread_step
trying-exchange max_active_streams zero active_streams = ground arith
trying-exchange max_active_streams (suc failures) active_streams =
    elim (Bool-cases (leb max_active_streams active_streams)) [
      | inl l ↦ rw l (refused-exchange max_active_streams failures active_streams)
      | inr l ↦ rw l (trying-exchange max_active_streams failures active_streams ∙ rw l refl)
    ]

-- A thread that acts alone, however often its weak exchange fails before, gets a guard, which counts,
-- exactly if fewer streams than the limit are active, and leaves the counter as it is otherwise.
pub try_start_owned_lem :
    (max_active_streams failures active_streams : ℕ)
    → try_start_owned max_active_streams failures active_streams ≡ (
        if leb max_active_streams active_streams
        then (none, active_streams)
        else (some (record { released = false }), active_streams + 1))
unfolding try_start_owned thread_step
try_start_owned_lem max_active_streams failures active_streams =
    rw (trying-exchange max_active_streams failures active_streams)
      (elim (Bool-cases (leb max_active_streams active_streams)) [
        | inl l ↦ rw l refl
        | inr l ↦ rw l refl
      ])

module _ {V B E : Type 0} (sv : Services) (http : Http V sv.State) (p : Provider B E sv.State)
    (app : AppState) where
  respond_whole-sent :
      (reservation : TokenReservation) (guard : Guard) (answer : ProviderResponse V)
      (g : Gateway V sv.State)
      → (respond_whole sv http p app reservation guard answer g).1.sent ≡ g.sent
  unfolding respond_whole settle drop_guard
  respond_whole-sent reservation guard answer g =
      elim (Option-cases (http.bytes answer g.services).0) [
        | inl q ↦ rw (q, respond_whole) refl
        | inr (body, q) ↦ rw (q, respond_whole) refl
      ]

  respond-sent :
      (reservation : TokenReservation) (guard : Guard) (streaming_request : Bool)
      (answer : Option (ProviderResponse V)) (g : Gateway V sv.State)
      → (respond sv http p app reservation guard streaming_request answer g).1.sent ≡ g.sent
  unfolding respond settle drop_guard
  respond-sent reservation guard streaming_request none g = refl
  respond-sent reservation guard streaming_request (some answer) g =
      elim (Bool-cases (streaming_request && is_success answer.status)) [
        | inl q ↦ rw (q, respond) refl
        | inr q ↦ rw (q, respond) (respond_whole-sent reservation guard answer g)
      ]

  forward_reserved-sent :
      (guard : Guard) (headers : HeaderMap V) (body : List ℕ) (streaming_request : Bool)
      (token_budget : ℕ) (reservation : TokenReservation) (g : Gateway V sv.State)
      → (forward_reserved sv http p app guard headers
          (body, streaming_request, token_budget)
          reservation
          g).1.sent
        ≡ provider_request sv http p app headers body ∷ g.sent
  unfolding forward_reserved send
  forward_reserved-sent guard headers body streaming_request token_budget reservation g =
      let (answer, h) = send sv http p app (provider_request sv http p app headers body) g in
      respond-sent reservation guard streaming_request answer h

  -- What a request must have gone through when one was sent to the provider for it: the preparation of
  -- its body and the reservation of its budget.
  abbrev pub IsForwarded :
      Request V B
      → AuthenticatedEngineer
      → sv.State
      → List (ProviderRequest V)
      → List (ProviderRequest V)
      → Type 0
  IsForwarded request engineer counted before after =
      (body : List ℕ) × (streaming_request : Bool) × (token_budget : ℕ) × (prepared : sv.State)
      × (reservation : TokenReservation) × (reserved : sv.State) × Path
          (Result E (List ℕ × Bool × ℕ) × sv.State) (p.prepare request.body counted)
          (ok (body, streaming_request, token_budget), prepared)
      × Path (Result TokenReservationError TokenReservation × sv.State)
          (reserve sv app.reservation_manager engineer token_budget prepared)
          (ok reservation, reserved)
      × (after ≡ provider_request sv http p app request.headers body ∷ before)

  -- Why a request of an engineer's is not forwarded: its body is not prepared, or its budget is not
  -- reserved.
  abbrev pub IsUnforwarded : Request V B → AuthenticatedEngineer → sv.State → Type 0
  IsUnforwarded request engineer counted =
      ((e : E) × ((p.prepare request.body counted).0 ≡ err e))
      ⊎ ((body : List ℕ) × (streaming_request : Bool) × (token_budget : ℕ) × (prepared : sv.State)
          × (e : TokenReservationError) × Path (Result E (List ℕ × Bool × ℕ) × sv.State)
              (p.prepare request.body counted)
              (ok (body, streaming_request, token_budget), prepared)
          × ((reserve sv app.reservation_manager engineer token_budget prepared).0 ≡ err e))

  forward-sent :
      (guard : Guard) (request : Request V B) (engineer : AuthenticatedEngineer)
      (g : Gateway V sv.State)
      → (((forward sv http p app guard request engineer g).1.sent ≡ g.sent)
          × IsUnforwarded request engineer g.services)
        ⊎ IsForwarded request engineer g.services g.sent
            (forward sv http p app guard request engineer g).1.sent
  unfolding forward drops drop_guard
  forward-sent guard request engineer g =
      elim (Result-cases (p.prepare request.body g.services).0) [
        | inr (e, q) ↦ inl (rw (q, forward, drops) refl, inl (e, q))
        | inl ((body, streaming_request, token_budget), q) ↦
            let prepared = (p.prepare request.body g.services).1 in
            elim (Result-cases
              (reserve sv app.reservation_manager engineer token_budget prepared).0) [
                | inr (e, r) ↦ inl (
                  rw (q, forward, drops, map_err_of, on_services, r) refl,
                  inr (
                    body,
                    streaming_request,
                    token_budget,
                    prepared,
                    e,
                    ap (λ x. (x, prepared)) q,
                    r,
                  ),
                )
                | inl (reservation, r) ↦ inr (
                  body,
                  streaming_request,
                  token_budget,
                  prepared,
                  reservation,
                  (reserve sv app.reservation_manager engineer token_budget prepared).1,
                  ap (λ x. (x, prepared)) q,
                  ap
                      (λ x.
                        (x, (reserve sv app.reservation_manager engineer token_budget prepared).1))
                      r,
                  rw (q, forward, drops, map_err_of, on_services, r)
                      (forward_reserved-sent guard request.headers body streaming_request
                        token_budget reservation _),
                )
              ]
      ]

  abbrev pub start_then_forward :
      Request V B → AuthenticatedEngineer → Action (Gateway V sv.State) (RouteError E) (Response V)
  start_then_forward request engineer = start_stream sv http p app >>= λ guard.
      map_err_of proxy (forward sv http p app guard request engineer)

  start_then-IsForwarded :
      (request : Request V B) (engineer : AuthenticatedEngineer) (h : Gateway V sv.State)
      → (((start_then_forward request engineer h).1.sent ≡ h.sent)
          × ((app.max_active_streams ≤ h.active_streams)
              ⊎ IsUnforwarded request engineer h.services))
        ⊎ ((h.active_streams < app.max_active_streams)
            × IsForwarded request engineer h.services h.sent
                (start_then_forward request engineer h).1.sent)
  unfolding start_stream
  start_then-IsForwarded request engineer h =
      elim (Bool-cases (leb app.max_active_streams h.active_streams)) [
        | inl l ↦ inl (
          rw
              (
                ◌>>=◌,
                start_stream,
                try_start_owned_lem app.max_active_streams http.exchange_failures h.active_streams,
                l,
              )
              refl,
          inl (ground arith),
        )
        | inr l ↦
            rw
              (
                ◌>>=◌,
                start_stream,
                try_start_owned_lem app.max_active_streams http.exchange_failures h.active_streams,
                l,
              )
              (elim (forward-sent (record { released = false }) request engineer
                (start_stream sv http p app h).1) [
                  | inl (e, why) ↦ inl (e, inr why)
                  | inr forwarded ↦ inr (ground arith, forwarded)
                ])
      ]

  -- What a request must have gone through besides: its engineer was authenticated, the request was counted
  -- within the rate limit, and the limit of active streams was not reached.
  abbrev pub IsAdmitted :
      (ApiKeyHasher → Text → Text)
      → Request V B
      → Gateway V sv.State
      → List (ProviderRequest V)
      → Type 0
  IsAdmitted hash_api_key request g after =
      (engineer : AuthenticatedEngineer) × (authenticated : sv.State)
      × (decision : RateLimitDecision) × (counted : sv.State) × Path
          (Result AuthError AuthenticatedEngineer × sv.State)
          (authenticate_headers http.is_whitespace sv hash_api_key app.hasher app.engineer_auth
            (map_option http.to_str (lookup (codes "x-api-key") request.headers)) g.services)
          (ok engineer, authenticated)
      × Path (Result RateLimitError RateLimitDecision × sv.State)
          (check_and_record sv app.rate_limiter engineer.user_id authenticated)
          (ok decision, counted)
      × (g.active_streams < app.max_active_streams)
      × IsForwarded request engineer counted g.sent after

  -- Why a request is not admitted: its engineer is not authenticated, the rate limit refuses it, no
  -- stream is free, or it is not forwarded.
  abbrev pub IsUnadmitted : (ApiKeyHasher → Text → Text) → Request V B → Gateway V sv.State → Type 0
  IsUnadmitted hash_api_key request g =
      let first =
        authenticate_headers http.is_whitespace sv hash_api_key app.hasher app.engineer_auth
          (map_option http.to_str (lookup (codes "x-api-key") request.headers)) g.services in
      ((e : AuthError) × (first.0 ≡ err e))
      ⊎ ((engineer : AuthenticatedEngineer) × (first.0 ≡ ok engineer)
          × (let second = check_and_record sv app.rate_limiter engineer.user_id first.1 in
              ((e : RateLimitError) × (second.0 ≡ err e))
              ⊎ ((app.max_active_streams ≤ g.active_streams)
                  ⊎ IsUnforwarded request engineer second.1)))

  -- Nothing is sent to the provider, and the request's engineer is not authenticated, the rate limit
  -- refuses the request, no stream is free, its body cannot be prepared, or its budget cannot be
  -- reserved. Or all of that went well, and exactly one request is sent, with the prepared body and the
  -- headers that go to the provider.
  pub handle-IsAdmitted :
      (hash_api_key : ApiKeyHasher → Text → Text) (request : Request V B) (g : Gateway V sv.State)
      → (((handle sv http p app hash_api_key request g).1.sent ≡ g.sent)
          × IsUnadmitted hash_api_key request g)
        ⊎ IsAdmitted hash_api_key request g (handle sv http p app hash_api_key request g).1.sent
  unfolding handle start_stream
  handle-IsAdmitted hash_api_key request g =
      let first =
        authenticate_headers http.is_whitespace sv hash_api_key app.hasher app.engineer_auth
          (map_option http.to_str (lookup (codes "x-api-key") request.headers)) g.services in
      elim (Result-cases first.0) [
        | inr (e, q) ↦ inl (rw (q, handle, ◌>>=◌, map_err_of, on_services) refl, inl (e, q))
        | inl (engineer, q) ↦
            let second = check_and_record sv app.rate_limiter engineer.user_id first.1 in
            elim (Result-cases second.0) [
              | inr (e, r) ↦ inl (
                rw (q, handle, ◌>>=◌, ◌>>◌, map_err_of, on_services, r) refl,
                inr (engineer, q, inl (e, r)),
              )
              | inl (decision, r) ↦
                  let h = with_services second.1 (with_services first.1 g) in
                  rw (q, handle, ◌>>=◌, ◌>>◌, map_err_of, on_services, r)
                    (elim (start_then-IsForwarded request engineer h) [
                      | inl (e, why) ↦ inl (e, inr (engineer, refl, inr why))
                      | inr (l, forwarded) ↦ inr (
                        engineer,
                        first.1,
                        decision,
                        second.1,
                        refl,
                        ap (λ x. (x, second.1)) r,
                        l,
                        forwarded,
                      )
                    ])
            ]
      ]
