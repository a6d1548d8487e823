-- ===== src/OpenAi/Usage.antt =====
-- services/proxy/src/openai.rs: the usage that OpenAI reports, in a body or in the events of a stream.
use internal_ai_gateway.Base.{
  ℕ, List, Option, none, some, Text, codes, bind_option, map_option, text_eq, if◌then◌else◌,
  checked_add,
}
use internal_ai_gateway.Base.Options.{◌>>=◌}
use internal_ai_gateway.Formats.{Formats}
use internal_ai_gateway.Sse.{event_data}
use internal_ai_gateway.Anthropic.Usage.{is_client_error}

pub record OpenAiUsage : Type 0 where
  pub completion_tokens : Option ℕ
  pub prompt_tokens : Option ℕ
  pub total_tokens : ℕ

-- `prompt.zip(completion)`, and their sum if it does not overflow.
abbrev pub sum_of : Option ℕ → Option ℕ → Option ℕ
sum_of prompt_tokens completion_tokens = do
  prompt ← prompt_tokens
  completion ← completion_tokens
  checked_add prompt completion

abbrev pub or_else : Option ℕ → Option ℕ → Option ℕ
or_else none other = other
or_else (some tokens) other = some tokens

module _ (f : Formats) where
  open f use {Value, from_slice, get, as_u64}

  abbrev count : Text → Value → Option ℕ
  count name value = bind_option (get name value) as_u64

  unfoldable pub openai_usage_from_json_value : Value → Option OpenAiUsage
  openai_usage_from_json_value value = do
    let prompt_tokens = count (codes "prompt_tokens") value
    let completion_tokens = count (codes "completion_tokens") value
    total_tokens ←
        or_else (count (codes "total_tokens") value) (sum_of prompt_tokens completion_tokens)
    some (record {
      completion_tokens = completion_tokens;
      prompt_tokens = prompt_tokens;
      total_tokens = total_tokens;
    })

  unfoldable pub openai_usage_from_json_slice : List ℕ → Option OpenAiUsage
  unfolding openai_usage_from_json_value
  openai_usage_from_json_slice body = do
    value ← from_slice body
    usage ← get (codes "usage") value
    openai_usage_from_json_value usage

  unfoldable pub completed_response_tokens : ℕ → List ℕ → Option ℕ
  unfolding openai_usage_from_json_slice
  completed_response_tokens status body =
      if is_client_error status
      then some 0
      else map_option (λ usage. usage.total_tokens) (openai_usage_from_json_slice body)

  unfoldable pub usage_from_sse_event : List ℕ → Option OpenAiUsage
  unfolding openai_usage_from_json_slice
  usage_from_sse_event event = do
    bytes ← event_data f.from_utf8_lossy f.into_bytes f.is_whitespace event
    if text_eq bytes (codes "[DONE]") then none else openai_usage_from_json_slice bytes

  -- The last usage that a stream reports counts.
  abbrev pub latest : Option OpenAiUsage → Option OpenAiUsage → Option OpenAiUsage
  latest observed none = observed
  latest observed (some usage) = some usage

  unfoldable pub observe_event : Option OpenAiUsage → List ℕ → Option OpenAiUsage
  unfolding usage_from_sse_event
  observe_event observed event = latest observed (usage_from_sse_event event)
