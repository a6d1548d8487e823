-- ===== src/OpenAi/Handlers.antt =====
-- services/proxy/src/openai.rs: the handler of `/v1/openai/chat/completions` and its stream, which are the
-- gateway's over this provider.
use internal_ai_gateway.Base.{ℕ, Bool, List, Text, Option, none, map_ok}
use internal_ai_gateway.Base.Actions.{Action}
use internal_ai_gateway.Services.{Services}
use internal_ai_gateway.EngineerAuth.{AuthenticatedEngineer}
use internal_ai_gateway.Auth.{ApiKeyHasher}
use internal_ai_gateway.Streams.{Guard}
use internal_ai_gateway.TokenReservation.{TokenReservation}
use internal_ai_gateway.Formats.{Formats}
use internal_ai_gateway.Gateway.{
  Http, Request, Response, ProxyError, RouteError, Gateway, AppState, forward, handle,
}
use internal_ai_gateway.Gateway.Streaming.{Turn, ProxyStreamItem, run_task}
use internal_ai_gateway.OpenAi.{OpenAiProxy, openai_provider, observed_tokens}
use internal_ai_gateway.Documents.{Document}
use internal_ai_gateway.OpenAiRequest.{IoError, OpenAiRequestTransformError}
use internal_ai_gateway.OpenAiRequest.Transform.{Writing, Values}
use internal_ai_gateway.OpenAiRequest.Prepare.{Spool, PreparedOpenAiRequest, prepare_openai_request}
use internal_ai_gateway.OpenAi.Usage.{observe_event}

-- What is left to do with a request's body: the document that its reader finds behind the limit on nesting and
-- keys, what the reader reports where it breaks off, and whether the blocking task is lost.
pub record Upload : Type 0 where
  pub worker_stops : Bool
  pub document : Document
  pub failure : Option IoError

abbrev pub into_parts : PreparedOpenAiRequest → List ℕ × Bool × ℕ
into_parts prepared = (prepared.body, prepared.streaming, prepared.token_budget)

-- `prepare_openai_request`, which does not act on the services.
abbrev pub prepare :
    {S : Type 0} (w : Writing) (v : Values) (files : Spool w)
    → ℕ
    → Upload
    → Action S OpenAiRequestTransformError (List ℕ × Bool × ℕ)
prepare w v files default upload a = (
  map_ok into_parts
      (prepare_openai_request w v upload.failure files upload.worker_stops upload.document default),
  a,
)

module _ {V : Type 0} (sv : Services) (http : Http V sv.State) (app : AppState) (f : Formats)
    (proxy : OpenAiProxy) (w : Writing) (v : Values) (files : Spool w) where
  unfoldable pub forward_chat_completions :
      Guard
      → Request V Upload
      → AuthenticatedEngineer
      → Action (Gateway V sv.State) (ProxyError OpenAiRequestTransformError) (Response V)
  unfolding forward openai_provider
  forward_chat_completions = forward sv http (openai_provider f proxy (prepare w v files)) app

  unfoldable pub handle_chat_completions :
      (ApiKeyHasher → Text → Text)
      → Request V Upload
      → Action (Gateway V sv.State) (RouteError OpenAiRequestTransformError) (Response V)
  unfolding handle openai_provider
  handle_chat_completions = handle sv http (openai_provider f proxy (prepare w v files)) app

  unfoldable pub usage_recording_stream :
      TokenReservation → Guard → List Turn → sv.State → ℕ → List ProxyStreamItem × sv.State × ℕ
  unfolding run_task observe_event observed_tokens
  usage_recording_stream =
      run_task none (observe_event f) observed_tokens sv app.reservation_manager
