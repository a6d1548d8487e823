-- ===== src/OpenAi.antt =====
-- services/proxy/src/openai.rs: the proxy of OpenAI, by what its handler and its stream are of the gateway's.
pub mod Usage
pub mod Handlers
use internal_ai_gateway.Base.{
  ℕ, Bool, List, [], ◌∷◌, ◌++◌, Option, none, some, Text, codes, max, map_option, is_empty, fail_if,
  ok_or, Result, ok, ◌>>=◌, ◌>>◌,
}
use internal_ai_gateway.Base.Actions
use internal_ai_gateway.Base.Actions.{Action, pure, map_err_of}
use internal_ai_gateway.Services.{Services}
use internal_ai_gateway.Formats.{Formats}
use internal_ai_gateway.Headers.{should_forward_openai_request_header}
use internal_ai_gateway.Gateway.{Provider}
use internal_ai_gateway.Anthropic.{provider_url}
use Usage.{OpenAiUsage, completed_response_tokens}

pub record OpenAiProxy : Type 0 where
  pub api_key : Text
  pub default_max_completion_tokens : ℕ
  pub chat_completions_url : Text

-- `OpenAiProxy::new`.
unfoldable pub new : Text → Text → ℕ → OpenAiProxy
unfolding provider_url
new api_key base_url default_max_completion_tokens = record {
  api_key = api_key;
  default_max_completion_tokens = max default_max_completion_tokens 1;
  chat_completions_url = provider_url base_url (codes "/v1/chat/completions");
}

pub data OpenAiSecretError : Type 0 where
  fetch_failed missing_secret_string empty_secret_string : OpenAiSecretError

unfoldable pub load_openai_proxy :
    (sv : Services) → Text → Text → ℕ → Action sv.State OpenAiSecretError OpenAiProxy
unfolding new
load_openai_proxy sv secret_arn base_url default_max_completion_tokens =
    Actions.◌>>=◌ (map_err_of (λ _. fetch_failed) (sv.get_secret_value secret_arn)) λ output.
      pure (do
        api_key ← ok_or output missing_secret_string
        fail_if (is_empty api_key) empty_secret_string
        ok (new api_key base_url default_max_completion_tokens))

-- The tokens that a stream's recorder settles with.
unfoldable pub observed_tokens : Option OpenAiUsage → Option ℕ
observed_tokens usage = map_option (λ u. u.total_tokens) usage

-- What `forward_chat_completions` is of `Gateway.forward`. The preparation has the default of the
-- completion's tokens.
unfoldable pub openai_provider :
    {B E S : Type 0}
    → Formats
    → OpenAiProxy
    → (ℕ → B → Action S E (List ℕ × Bool × ℕ))
    → Provider B E S
unfolding completed_response_tokens should_forward_openai_request_header
openai_provider f proxy prepare = record {
  url = proxy.chat_completions_url;
  credential = (codes "authorization", codes "Bearer " ++ proxy.api_key);
  should_forward = should_forward_openai_request_header;
  prepare = prepare proxy.default_max_completion_tokens;
  completed_response_tokens = completed_response_tokens f;
}
