-- ===== src/Anthropic/Usage.antt =====
-- services/proxy/src/anthropic.rs: the usage that Anthropic reports, in a body or in the events of a
-- stream.
use internal_ai_gateway.Base.{
  ℕ, ◌+◌, ◌%◌, ◌^◌, Bool, ◌||◌, ◌&&◌, List, Option, none, some, Text, codes, ltb, leb, is_some,
  unwrap_or, bind_option, map_option, text_eq, if◌then◌else◌,
}
use internal_ai_gateway.Base.Options.{◌>>=◌}
use internal_ai_gateway.Formats.{Formats}
use internal_ai_gateway.Sse.{event_data}

pub record AnthropicUsage : Type 0 where
  pub cache_creation_input_tokens : Option ℕ
  pub cache_read_input_tokens : Option ℕ
  pub input_tokens : Option ℕ
  pub output_tokens : Option ℕ

-- `+` on `u64`, which wraps around in a release build.
abbrev pub wrapping_add : ℕ → ℕ → ℕ
wrapping_add a b = (a + b) % 2 ^ 64

unfoldable pub total_tokens : AnthropicUsage → ℕ
total_tokens usage =
    wrapping_add
      (wrapping_add
        (wrapping_add (unwrap_or usage.cache_creation_input_tokens 0)
          (unwrap_or usage.cache_read_input_tokens 0))
        (unwrap_or usage.input_tokens 0))
      (unwrap_or usage.output_tokens 0)

unfoldable pub has_usage : AnthropicUsage → Bool
has_usage usage =
    is_some usage.cache_creation_input_tokens
    || is_some usage.cache_read_input_tokens
    || is_some usage.input_tokens
    || is_some usage.output_tokens

-- `AnthropicUsage::default()`.
abbrev pub no_usage : AnthropicUsage
no_usage = record {
  cache_creation_input_tokens = none;
  cache_read_input_tokens = none;
  input_tokens = none;
  output_tokens = none;
}

-- `Option::filter` on `has_usage`, which is `then_some` of `observed_usage` too.
unfoldable pub observed_usage : AnthropicUsage → Option AnthropicUsage
unfolding has_usage
observed_usage usage = if has_usage usage then some usage else none

-- A field that is reported replaces what was observed.
abbrev pub replace : Option ℕ → Option ℕ → Option ℕ
replace old none = old
replace old (some tokens) = some tokens

unfoldable pub merged : AnthropicUsage → AnthropicUsage → AnthropicUsage
merged observed usage = record {
  cache_creation_input_tokens =
      replace observed.cache_creation_input_tokens usage.cache_creation_input_tokens;
  cache_read_input_tokens = replace observed.cache_read_input_tokens usage.cache_read_input_tokens;
  input_tokens = replace observed.input_tokens usage.input_tokens;
  output_tokens = replace observed.output_tokens usage.output_tokens;
}

-- `status.is_client_error()` and `status.is_success()`.
abbrev pub is_client_error : ℕ → Bool
is_client_error status = leb 400 status && ltb status 500

abbrev pub is_success : ℕ → Bool
is_success status = leb 200 status && ltb status 300

module _ (f : Formats) where
  open f use {Value, from_slice, get, as_u64, as_str}

  abbrev count : Text → Value → Option ℕ
  count name value = bind_option (get name value) as_u64

  unfoldable pub anthropic_usage_from_json_value : Value → Option AnthropicUsage
  unfolding observed_usage
  anthropic_usage_from_json_value value = observed_usage (record {
    cache_creation_input_tokens = count (codes "cache_creation_input_tokens") value;
    cache_read_input_tokens = count (codes "cache_read_input_tokens") value;
    input_tokens = count (codes "input_tokens") value;
    output_tokens = count (codes "output_tokens") value;
  })

  unfoldable pub anthropic_usage_from_json_slice : List ℕ → Option AnthropicUsage
  unfolding anthropic_usage_from_json_value
  anthropic_usage_from_json_slice body = do
    value ← from_slice body
    usage ← get (codes "usage") value
    anthropic_usage_from_json_value usage

  unfoldable pub completed_response_tokens : ℕ → List ℕ → Option ℕ
  unfolding anthropic_usage_from_json_slice total_tokens
  completed_response_tokens status body =
      if is_client_error status
      then some 0
      else map_option total_tokens (anthropic_usage_from_json_slice body)

  -- The usage of an event, by its type: a `message_start` carries it in its message.
  unfoldable pub usage_of_event : Value → Option AnthropicUsage
  unfolding anthropic_usage_from_json_value
  usage_of_event value = elim (bind_option (get (codes "type") value) as_str) [
    | none ↦ none
    | some type ↦
        if text_eq type (codes "message_start")
        then (do
          message ← get (codes "message") value
          usage ← get (codes "usage") message
          anthropic_usage_from_json_value usage)
        else if text_eq type (codes "message_delta")
        then (do usage ← get (codes "usage") value; anthropic_usage_from_json_value usage)
        else none
  ]

  abbrev pub merge_reported : AnthropicUsage → Option AnthropicUsage → AnthropicUsage
  merge_reported observed none = observed
  merge_reported observed (some usage) = merged observed usage

  unfoldable pub observe_event : AnthropicUsage → List ℕ → AnthropicUsage
  unfolding usage_of_event merged
  observe_event observed event = merge_reported observed (do
    bytes ← event_data f.from_utf8_lossy f.into_bytes f.is_whitespace event
    value ← from_slice bytes
    usage_of_event value)
