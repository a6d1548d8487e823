-- ===== src/Gateway.antt =====
-- services/proxy/src/anthropic.rs and services/proxy/src/openai.rs: a request's way through the gateway,
-- from its headers to the provider and back. The two handlers are the same code over what differs
-- between the providers, which `Provider` names. A run is that of one request: what other requests do
-- meanwhile is what the services' state goes through, and the counter of streams changes by it alone.
pub mod Responses
pub mod Streaming
pub mod Sends
pub mod Settles
use internal_ai_gateway.Base.{
  ℕ, zero, suc, ◌++◌, Bool, true, false, ◌&&◌, List, [], ◌∷◌, Option, none, some, Text, codes, ltb,
  leb, lookup, if◌then◌else◌, map_option, Result, ok, err, ok_or,
}
use internal_ai_gateway.Base.Actions.{Action, ◌>>=◌, ◌>>◌, pure, map_err_of}
use internal_ai_gateway.Services.{Services}
use internal_ai_gateway.EngineerAuth.{AuthenticatedEngineer, EngineerAuth}
use internal_ai_gateway.Auth.{AuthError, ApiKeyHasher, authenticate_headers}
use internal_ai_gateway.RateLimit.{RateLimiter, RateLimitError, check_and_record}
use internal_ai_gateway.Streams.{Guard, Phase, holding, idle, thread_step, release}
use internal_ai_gateway.TokenReservation.{
  TokenReservation, TokenReservationManager, reserve, reconcile,
}
use internal_ai_gateway.TokenReservation.Writes.{TokenReservationError}
use internal_ai_gateway.Headers.{
  HeaderMap, ConnectionHeaderNames, value_of, forwarded, copy_response_headers,
}
use internal_ai_gateway.Anthropic.Usage.{is_success}

pub record ProviderRequest (V : Type 0) : Type 0 where
  pub url : Text
  pub headers : HeaderMap V
  pub body : List ℕ

pub record ProviderResponse (V : Type 0) : Type 0 where
  pub status : ℕ
  pub headers : HeaderMap V

-- The HTTP client and the header values, which are libraries': a request's answer, the whole body of a
-- response, whether a response can be built of a status and headers, and a header's value of a text. How
-- often a weak exchange fails is the machine's.
pub record Http (V S : Type 0) : Type 0 where
  pub send : ProviderRequest V → S → Option (ProviderResponse V) × S
  pub bytes : ProviderResponse V → S → Option (List ℕ) × S
  pub builds : ℕ → HeaderMap V → Bool
  pub header_value : Text → V
  pub to_str : V → Option Text
  pub is_whitespace : ℕ → Bool
  pub exchange_failures : ℕ

-- `AnthropicProxy` or `OpenAiProxy`, with the functions in which their modules differ: the header with the
-- provider's key, the headers of the request that go with it, the preparation of the body, which gives
-- the body to send, whether it asks for a stream, and its token budget, and the tokens of a whole
-- response.
pub record Provider (B E S : Type 0) : Type 0 where
  pub url : Text
  pub credential : Text × Text
  pub should_forward : Text → ConnectionHeaderNames → Bool
  pub prepare : B → Action S E (List ℕ × Bool × ℕ)
  pub completed_response_tokens : ℕ → List ℕ → Option ℕ

pub record Request (V B : Type 0) : Type 0 where
  pub headers : HeaderMap V
  pub body : B

-- The body of a response is the whole one, or what the task that was spawned sends on.
pub data ResponseBody : Type 0 where
  whole : List ℕ → ResponseBody
  streamed : ResponseBody

pub record Response (V : Type 0) : Type 0 where
  pub status : ℕ
  pub headers : HeaderMap V
  pub body : ResponseBody

-- `AnthropicProxyError` and, under shorter names, `OpenAiProxyError`.
pub data ProxyError (E : Type 0) : Type 0 where
  provider_request_failed response_build_failed : ProxyError E
  request_preparation : E → ProxyError E
  token_reservation : TokenReservationError → ProxyError E

-- `AnthropicRouteError` and `OpenAiRouteError`.
pub data RouteError (E : Type 0) : Type 0 where
  auth : AuthError → RouteError E
  rate_limit : RateLimitError → RouteError E
  too_many_active_streams : RouteError E
  proxy : ProxyError E → RouteError E

-- What a handler acts on: the services, the counter of active streams, the requests that the client was
-- given to send, the last first, and the tasks that were spawned, each with its reservation and guard.
pub record Gateway (V S : Type 0) : Type 0 where
  pub services : S
  pub active_streams : ℕ
  pub sent : List (ProviderRequest V)
  pub spawned : List (TokenReservation × Guard)

-- `AppState`, without the proxies.
pub record AppState : Type 0 where
  pub hasher : ApiKeyHasher
  pub engineer_auth : EngineerAuth
  pub rate_limiter : RateLimiter
  pub max_active_streams : ℕ
  pub reservation_manager : TokenReservationManager

-- The loop of `try_start_stream`, with how often the weak exchange fails before it may succeed.
unfoldable pub exchange : ℕ → ℕ → Phase → ℕ → Phase × ℕ
unfolding thread_step
exchange max_active_streams zero phase active_streams =
    thread_step max_active_streams false phase active_streams
exchange max_active_streams (suc failures) phase active_streams =
    let (after, left) = thread_step max_active_streams true phase active_streams in
    exchange max_active_streams failures after left

-- `try_start_owned`, whose thread acts alone.
abbrev pub guard_of : Phase → Option Guard
guard_of (holding guard) = some guard
guard_of _ = none

unfoldable pub try_start_owned : ℕ → ℕ → ℕ → Option Guard × ℕ
unfolding thread_step exchange
try_start_owned max_active_streams failures active_streams =
    let (loaded, seen) = thread_step max_active_streams false idle active_streams in
    let (phase, left) = exchange max_active_streams failures loaded seen in (guard_of phase, left)

module _ {V S : Type 0} where
  abbrev pub with_services : S → Gateway V S → Gateway V S
  with_services services g = record {
    services = services;
    active_streams = g.active_streams;
    sent = g.sent;
    spawned = g.spawned;
  }

  abbrev pub with_streams : ℕ → Gateway V S → Gateway V S
  with_streams active_streams g = record {
    services = g.services;
    active_streams = active_streams;
    sent = g.sent;
    spawned = g.spawned;
  }

  abbrev pub on_services : {E A : Type 0} → Action S E A → Action (Gateway V S) E A
  on_services m g = let (r, services) = m g.services in (r, with_services services g)

  abbrev pub spawn : TokenReservation → Guard → Gateway V S → Gateway V S
  spawn reservation guard g = record {
    services = g.services;
    active_streams = g.active_streams;
    sent = g.sent;
    spawned = (reservation, guard) ∷ g.spawned;
  }

  -- A guard that is dropped.
  unfoldable pub drop_guard : Guard → Gateway V S → Gateway V S
  unfolding release
  drop_guard guard g = let (_, left) = release guard g.active_streams in with_streams left g

-- `StatusCode::from_u16(status).unwrap_or(BAD_GATEWAY)`.
abbrev pub response_status : ℕ → ℕ
response_status status = if leb 100 status && ltb status 1000 then status else 502

module _ {V B E : Type 0} (sv : Services) (http : Http V sv.State) (p : Provider B E sv.State)
    (app : AppState) where
  abbrev pub Step : Type 0 → Type 0
  Step = Action (Gateway V sv.State) (ProxyError E)

  abbrev pub provider_request : HeaderMap V → List ℕ → ProviderRequest V
  provider_request headers body = record {
    url = p.url;
    headers =
        (p.credential.0, http.header_value p.credential.1)
        ∷ forwarded http.to_str http.is_whitespace p.should_forward headers;
    body = body;
  }

  -- `reservation.reconcile(..).await`, whose error is only logged.
  unfoldable pub settle : TokenReservation → Option ℕ → Gateway V sv.State → Gateway V sv.State
  settle reservation actual_tokens g =
      let (_, services) =
        reconcile sv app.reservation_manager reservation actual_tokens g.services in
      with_services services g

  unfoldable pub send :
      ProviderRequest V → Gateway V sv.State → Option (ProviderResponse V) × Gateway V sv.State
  send request g =
      let (answer, services) = http.send request g.services in
      (
        answer,
        record {
          services = services;
          active_streams = g.active_streams;
          sent = request ∷ g.sent;
          spawned = g.spawned;
        },
      )

  abbrev pub build_response : ProviderResponse V → ResponseBody → Result (ProxyError E) (Response V)
  build_response answer body =
      let status = response_status answer.status in
      let headers = copy_response_headers http.to_str http.is_whitespace answer.headers [] in
      if http.builds status headers
      then ok (record { status = status; headers = headers; body = body })
      else err response_build_failed

  -- The response that is not streamed is read as a whole, and its tokens settle the reservation.
  unfoldable pub respond_whole : TokenReservation → Guard → ProviderResponse V → Step (Response V)
  unfolding settle drop_guard
  respond_whole reservation guard answer g =
      let (read, services) = http.bytes answer g.services in
      let h = with_services services g in
      elim read [
        | none ↦ (err provider_request_failed, drop_guard guard (settle reservation none h))
        | some body ↦ (
          build_response answer (whole body),
          drop_guard guard (settle reservation (p.completed_response_tokens answer.status body) h),
        )
      ]

  unfoldable pub respond :
      TokenReservation → Guard → Bool → Option (ProviderResponse V) → Step (Response V)
  unfolding respond_whole settle drop_guard
  respond reservation guard streaming_request none g =
      (err provider_request_failed, drop_guard guard (settle reservation none g))
  respond reservation guard streaming_request (some answer) g =
      elim (streaming_request && is_success answer.status) [
        | true ↦ (build_response answer streamed, spawn reservation guard g)
        | false ↦ respond_whole reservation guard answer g
      ]

  -- `forward_messages` and `forward_chat_completions`, from the reservation on.
  unfoldable pub forward_reserved :
      Guard → HeaderMap V → List ℕ × Bool × ℕ → TokenReservation → Step (Response V)
  unfolding send respond
  forward_reserved guard headers (body, streaming_request, _) reservation g =
      let (answer, h) = send (provider_request headers body) g in
      respond reservation guard streaming_request answer h

  -- An early return drops the guard.
  unfoldable pub drops : {A C : Type 0} → Guard → Step A → (A → Step C) → Step C
  unfolding drop_guard
  drops guard m next g =
      let (r, h) = m g in elim r [ ok a ↦ next a h | err e ↦ (err e, drop_guard guard h) ]

  unfoldable pub forward : Guard → Request V B → AuthenticatedEngineer → Step (Response V)
  unfolding drops forward_reserved
  forward guard request engineer =
      drops guard (map_err_of request_preparation (on_services (p.prepare request.body)))
        λ prepared.
          let (_, _, token_budget) = prepared in
          drops guard
            (map_err_of token_reservation
              (on_services (reserve sv app.reservation_manager engineer token_budget)))
            λ reservation. forward_reserved guard request.headers prepared reservation

  abbrev pub RouteStep : Type 0 → Type 0
  RouteStep = Action (Gateway V sv.State) (RouteError E)

  unfoldable pub start_stream : RouteStep Guard
  start_stream g =
      let (guard, left) =
        try_start_owned app.max_active_streams http.exchange_failures g.active_streams in
      (ok_or guard too_many_active_streams, with_streams left g)

  -- `handle_messages` and `handle_chat_completions`. The key is the first value of its header.
  unfoldable pub handle : (ApiKeyHasher → Text → Text) → Request V B → RouteStep (Response V)
  unfolding start_stream forward
  handle hash_api_key request = do
    engineer ← map_err_of auth (
        on_services (
          authenticate_headers http.is_whitespace sv hash_api_key app.hasher app.engineer_auth
            (map_option http.to_str (lookup (codes "x-api-key") request.headers))))
    map_err_of rate_limit (on_services (check_and_record sv app.rate_limiter engineer.user_id))
    guard ← start_stream
    map_err_of proxy (forward guard request engineer)
