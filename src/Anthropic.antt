-- ===== src/Anthropic.antt =====
-- services/proxy/src/anthropic.rs and services/proxy/src/provider_url.rs: the proxy of Anthropic, by what
-- its handler and its stream are of the gateway's.
pub mod Usage
pub mod Credentials
pub mod Handlers
pub mod Delivery
use internal_ai_gateway.Base.{
  ℕ, Bool, List, [], ◌∷◌, ◌++◌, Option, none, some, Text, codes, map_option, is_empty, ◌==◌,
  trim_end, fail_if, ok_or, Result, ok, ◌>>=◌, ◌>>◌,
}
use internal_ai_gateway.Base.Actions
use internal_ai_gateway.Base.Actions.{Action, pure, map_err_of}
use internal_ai_gateway.Services.{Services}
use internal_ai_gateway.Formats.{Formats}
use internal_ai_gateway.Headers.{should_forward_request_header}
use internal_ai_gateway.Gateway.{Provider}
use Usage.{AnthropicUsage, observed_usage, total_tokens, completed_response_tokens}

-- `trim_end_matches('/')`, and the path behind it.
unfoldable pub provider_url : Text → Text → Text
unfolding trim_end
provider_url base_url path = trim_end (λ c. c == 47) base_url ++ path

pub record AnthropicProxy : Type 0 where
  pub api_key : Text
  pub messages_url : Text

-- `AnthropicProxy::new`.
unfoldable pub new : Text → Text → AnthropicProxy
unfolding provider_url
new api_key base_url = record {
  api_key = api_key;
  messages_url = provider_url base_url (codes "/v1/messages");
}

pub data AnthropicSecretError : Type 0 where
  fetch_failed missing_secret_string empty_secret_string : AnthropicSecretError

unfoldable pub load_anthropic_proxy :
    (sv : Services) → Text → Text → Action sv.State AnthropicSecretError AnthropicProxy
unfolding new
load_anthropic_proxy sv secret_arn base_url =
    Actions.◌>>=◌ (map_err_of (λ _. fetch_failed) (sv.get_secret_value secret_arn)) λ output.
      pure (do
        api_key ← ok_or output missing_secret_string
        fail_if (is_empty api_key) empty_secret_string
        ok (new api_key base_url))

-- The tokens that a stream's recorder settles with.
unfoldable pub observed_tokens : AnthropicUsage → Option ℕ
unfolding observed_usage total_tokens
observed_tokens usage = map_option total_tokens (observed_usage usage)

-- What `forward_messages` is of `Gateway.forward`.
unfoldable pub anthropic_provider :
    {B E S : Type 0}
    → Formats
    → AnthropicProxy
    → (B → Action S E (List ℕ × Bool × ℕ))
    → Provider B E S
unfolding completed_response_tokens should_forward_request_header
anthropic_provider f proxy prepare = record {
  url = proxy.messages_url;
  credential = (codes "x-api-key", proxy.api_key);
  should_forward = should_forward_request_header;
  prepare = prepare;
  completed_response_tokens = completed_response_tokens f;
}
