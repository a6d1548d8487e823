-- ===== src/Anthropic/Handlers.antt =====
-- services/proxy/src/anthropic.rs: the handler of `/v1/anthropic/messages` and its stream, which are the
-- gateway's over this provider.
use internal_ai_gateway.Base.{ℕ, Bool, List, Text, Result, map_ok}
use internal_ai_gateway.Base.Actions.{Action}
use internal_ai_gateway.Services.{Services}
use internal_ai_gateway.EngineerAuth.{AuthenticatedEngineer}
use internal_ai_gateway.Auth.{ApiKeyHasher}
use internal_ai_gateway.Streams.{Guard}
use internal_ai_gateway.TokenReservation.{TokenReservation}
use internal_ai_gateway.Formats.{Formats}
use internal_ai_gateway.Gateway.{
  Http, Request, Response, ProxyError, RouteError, Gateway, AppState, forward, handle,
}
use internal_ai_gateway.Gateway.Streaming.{Turn, ProxyStreamItem, run_task}
use internal_ai_gateway.Anthropic.{AnthropicProxy, anthropic_provider, observed_tokens}
use internal_ai_gateway.Documents.{Document}
use internal_ai_gateway.OpenAiRequest.{IoError}
use internal_ai_gateway.AnthropicRequest.{AnthropicRequestError}
use internal_ai_gateway.AnthropicRequest.Files.{Files}
use internal_ai_gateway.AnthropicRequest.Prepare.{
  PreparedAnthropicRequest, prepare_anthropic_request,
}
use internal_ai_gateway.Anthropic.Usage.{no_usage, observe_event}

-- What is left to do with a request's body: its reads, and whether the blocking task is lost.
pub record Upload : Type 0 where
  pub worker_stops : Bool
  pub reads : List (Result IoError (List ℕ))

abbrev pub into_parts : PreparedAnthropicRequest → List ℕ × Bool × ℕ
into_parts prepared = (prepared.body, prepared.streaming, prepared.token_budget)

-- `prepare_anthropic_request`, which does not act on the services.
abbrev pub prepare :
    {S : Type 0}
    → Files
    → (List ℕ → Document)
    → Upload
    → Action S AnthropicRequestError (List ℕ × Bool × ℕ)
prepare files parse upload a =
    (map_ok into_parts (prepare_anthropic_request files parse upload.worker_stops upload.reads), a)

module _ {V : Type 0} (sv : Services) (http : Http V sv.State) (app : AppState) (f : Formats)
    (proxy : AnthropicProxy) (files : Files) (parse : List ℕ → Document) where
  unfoldable pub forward_messages :
      Guard
      → Request V Upload
      → AuthenticatedEngineer
      → Action (Gateway V sv.State) (ProxyError AnthropicRequestError) (Response V)
  unfolding forward anthropic_provider
  forward_messages = forward sv http (anthropic_provider f proxy (prepare files parse)) app

  unfoldable pub handle_messages :
      (ApiKeyHasher → Text → Text)
      → Request V Upload
      → Action (Gateway V sv.State) (RouteError AnthropicRequestError) (Response V)
  unfolding handle anthropic_provider
  handle_messages = handle sv http (anthropic_provider f proxy (prepare files parse)) app

  unfoldable pub usage_recording_stream :
      TokenReservation → Guard → List Turn → sv.State → ℕ → List ProxyStreamItem × sv.State × ℕ
  unfolding run_task observe_event observed_tokens
  usage_recording_stream =
      run_task no_usage (observe_event f) observed_tokens sv app.reservation_manager
