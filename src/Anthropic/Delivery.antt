-- ===== src/Anthropic/Delivery.antt =====
-- What a request to `/v1/anthropic/messages` has Anthropic get.
use mathlib.Core.List.Memᴰ.{Memᴰ}
use internal_ai_gateway.Base.{
  ℕ, ◌+◌, ◌≤◌, ◌≡◌, ◌⊎◌, inl, inr, refl, sym, ap, ◌∙◌, Bool, List, ◌∷◌, Text, codes, length, lookup,
  map_option, to_ascii_lowercase, Result, ok, err, map_ok, arith,
}
use internal_ai_gateway.Services.{Services}
use internal_ai_gateway.EngineerAuth.{AuthenticatedEngineer}
use internal_ai_gateway.Auth.{ApiKeyHasher, AuthError, authenticate_headers}
use internal_ai_gateway.RateLimit.{RateLimitDecision, RateLimitError, check_and_record}
use internal_ai_gateway.TokenReservation.{TokenReservation, reserve}
use internal_ai_gateway.TokenReservation.Writes.{TokenReservationError}
use internal_ai_gateway.Formats.{Formats}
use internal_ai_gateway.Documents.{Document}
use internal_ai_gateway.AnthropicRequest.{AnthropicRequestError}
use internal_ai_gateway.AnthropicRequest.Files.{Files, IsKept}
use internal_ai_gateway.AnthropicRequest.Prepare.{
  PreparedAnthropicRequest, prepare_anthropic_request, bytes_of, prepare_anthropic_request_ok,
}
use internal_ai_gateway.Gateway.{
  Http, Request, ProviderRequest, Gateway, AppState, provider_request,
}
use internal_ai_gateway.Gateway.Sends.{handle-IsAdmitted, IsUnadmitted}
use internal_ai_gateway.Anthropic.{AnthropicProxy, anthropic_provider}
use internal_ai_gateway.Anthropic.Credentials.{anthropic_key}
use internal_ai_gateway.Anthropic.Handlers.{Upload, into_parts, prepare, handle_messages}

-- A preparation that ends well, behind its parts.
parts-eq :
    (r : Result AnthropicRequestError PreparedAnthropicRequest) (body : List ℕ) (streaming : Bool)
    (budget : ℕ)
    → Path
        (Result AnthropicRequestError (List ℕ × Bool × ℕ))
        (map_ok into_parts r)
        (ok (body, streaming, budget))
    → (prepared : PreparedAnthropicRequest) × (r ≡ ok prepared)
      × (prepared.body ≡ body)
      × (prepared.token_budget ≡ budget)
parts-eq (err e) body streaming budget h = absurd (never h)
  where
    never :
        Path
          (Result AnthropicRequestError (List ℕ × Bool × ℕ))
          (err e)
          (ok (body, streaming, budget))
        → ⊥
    never q = cc
parts-eq (ok prepared) body streaming budget h = (prepared, refl, first, last)
  where
    first : prepared.body ≡ body
    first = cc

    last : prepared.token_budget ≡ budget
    last = cc

module _ {V : Type 0} (sv : Services) (http : Http V sv.State) (app : AppState) (f : Formats)
    (proxy : AnthropicProxy) (files : Files) (parse : List ℕ → Document) (kept : IsKept files) where
  -- One provider request went out: to Anthropic's address, with exactly the bytes of the client, with no
  -- value under the name of Anthropic's key but the provider's, and for an engineer whom the request's own
  -- key authenticates, whose count is within the rate limit, and who was granted a reservation that covers
  -- at least the bytes.
  abbrev pub IsDelivered :
      (ApiKeyHasher → Text → Text)
      → Request V Upload
      → Gateway V sv.State
      → List (ProviderRequest V)
      → Type 0
  IsDelivered hash_api_key request g after =
      (sent : ProviderRequest V) × (engineer : AuthenticatedEngineer) × (authenticated : sv.State)
      × (decision : RateLimitDecision) × (counted : sv.State) × (token_budget : ℕ)
      × (reservation : TokenReservation) × (reserved : sv.State) × (after ≡ sent ∷ g.sent)
      × (sent.url ≡ proxy.messages_url)
      × (sent.body ≡ bytes_of files parse request.body.reads)
      × ((name : Text) (value : V)
          → to_ascii_lowercase name ≡ codes "x-api-key"
          → Memᴰ (name, value) sent.headers
          → value ≡ http.header_value proxy.api_key)
      × Path (Result AuthError AuthenticatedEngineer × sv.State)
          (authenticate_headers http.is_whitespace sv hash_api_key app.hasher app.engineer_auth
            (map_option http.to_str (lookup (codes "x-api-key") request.headers)) g.services)
          (ok engineer, authenticated)
      × Path (Result RateLimitError RateLimitDecision × sv.State)
          (check_and_record sv app.rate_limiter engineer.user_id authenticated)
          (ok decision, counted)
      × Path (Result TokenReservationError TokenReservation × sv.State)
          (reserve sv app.reservation_manager engineer token_budget counted)
          (ok reservation, reserved)
      × (length sent.body ≤ token_budget)

  -- For one request to the gateway, Anthropic gets nothing, and the request was not admitted; or exactly
  -- one request, with exactly the bytes that the client sent, in which every header by the name of
  -- Anthropic's key, in any case, has the provider's key. The engineer that the request's own key
  -- authenticates was counted within the rate limit then, and granted a reservation of at least as many
  -- tokens as there are bytes, in this order.
  pub handle_messages-IsDelivered :
      (hash_api_key : ApiKeyHasher → Text → Text) (request : Request V Upload)
      (g : Gateway V sv.State)
      → (((handle_messages sv http app f proxy files parse hash_api_key request g).1.sent ≡ g.sent)
          × IsUnadmitted sv http
              (anthropic_provider f proxy (prepare files parse))
              app
              hash_api_key
              request
              g)
        ⊎ IsDelivered hash_api_key request g
            (handle_messages sv http app f proxy files parse hash_api_key request g).1.sent
  unfolding handle_messages anthropic_provider
  handle_messages-IsDelivered hash_api_key request g =
      elim (handle-IsAdmitted sv http (anthropic_provider f proxy (prepare files parse)) app
        hash_api_key request g) [
          | inl same ↦ inl same
          | inr
                (
                  engineer,
                  authenticated,
                  decision,
                  counted,
                  ea,
                  ec,
                  _,
                  (body, streaming, budget, a, reservation, b, ep, er, es),
                ) ↦
              let (prepared, ok_prepared, eb, ek) =
                parts-eq
                  (prepare_anthropic_request files parse request.body.worker_stops
                    request.body.reads)
                  body streaming budget (ap (λ x. x.0) ep) in
              let (metadata, _, bytes, _, sum, _, _) =
                prepare_anthropic_request_ok files parse kept request.body.worker_stops
                  request.body.reads prepared ok_prepared in
              inr (
                provider_request sv http (anthropic_provider f proxy (prepare files parse)) app
                    request.headers body,
                engineer,
                authenticated,
                decision,
                counted,
                budget,
                reservation,
                b,
                es,
                refl,
                sym eb ∙ bytes,
                λ name value k m.
                    anthropic_key sv http app f proxy (prepare files parse) request.headers body
                      name value k m,
                ea,
                ec,
                ap (λ x. reserve sv app.reservation_manager engineer budget x) (ap (λ x. x.1) ep)
                    ∙ er,
                covers body prepared.token_budget budget _ _ _ (ap length (sym eb ∙ bytes)) sum ek,
              )
        ]
    where
      covers :
          (body : List ℕ) (total budget bytes images limit : ℕ)
          → length body ≡ bytes
          → total ≡ bytes + images + limit
          → total ≡ budget
          → length body ≤ budget
      covers body total budget bytes images limit e h k = omega arith
