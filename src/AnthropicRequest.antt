-- ===== src/AnthropicRequest.antt =====
-- services/proxy/src/anthropic_request.rs: the preparation of a request to Anthropic. The body is spooled to a
-- temporary file and inspected there; the file and the parser are libraries'.
pub mod Files
pub mod Images
pub mod Prepare
use internal_ai_gateway.Base.{
  ℕ, ◌+◌, ◌*◌, ◌^◌, ◌<◌, Bool, true, false, List, [], ◌∷◌, ◌++◌, Option, none, some, Text, codes,
  ltb, length, is_some, text_eq, if◌then◌else◌, Result, ok, err, ok_or, map_err, fail_if, ◌>>=◌,
  ◌>>◌, checked_add, checked_mul, bind_option, unwrap_or, saturating_add,
}
use internal_ai_gateway.Documents.{
  Json, object, array, string, number, bool, null, malformed, Members, Elements, member, end_object,
  broken_object, element, end_array, broken_array, Document,
}
use internal_ai_gateway.OpenAiRequest.{IoError, file_too_large, timed_out}

abbrev pub image_input_token_reserve : ℕ
image_input_token_reserve = 32_768

abbrev pub max_spooled_request_bytes : ℕ
max_spooled_request_bytes = 256 * 1024 * 1024

pub data AnthropicRequestError : Type 0 where
  duplicate_field : Text → AnthropicRequestError
  invalid_json invalid_max_tokens token_budget_overflow worker_stopped : AnthropicRequestError
  spool_failed : IoError → AnthropicRequestError

unfoldable pub is_client_error : AnthropicRequestError → Bool
is_client_error (duplicate_field field) = true
is_client_error invalid_json = true
is_client_error invalid_max_tokens = true
is_client_error token_budget_overflow = true
is_client_error worker_stopped = false
is_client_error (spool_failed error) = false

unfoldable pub is_request_too_large : AnthropicRequestError → Bool
is_request_too_large (spool_failed file_too_large) = true
is_request_too_large _ = false

unfoldable pub is_upload_timeout : AnthropicRequestError → Bool
is_upload_timeout (spool_failed timed_out) = true
is_upload_timeout _ = false

abbrev pub add_images : ℕ → ℕ → Result AnthropicRequestError ℕ
add_images image_inputs more = ok_or (checked_add image_inputs more) token_budget_overflow

-- A member that gives the type of its object as a string.
abbrev pub type_of : Text → Json → Option Text
type_of name (string text) = if text_eq name (codes "type") then some text else none
type_of name _ = none

unfoldable mutual
  pub count_image_inputs : Json → Result AnthropicRequestError ℕ
  count_image_inputs (object members) = count_members 0 members
  count_image_inputs (array elements) = count_elements 0 elements
  count_image_inputs malformed = err invalid_json
  count_image_inputs (string text) = ok 0
  count_image_inputs (number value) = ok 0
  count_image_inputs (bool value) = ok 0
  count_image_inputs null = ok 0

  pub count_members : ℕ → Members → Result AnthropicRequestError ℕ
  count_members image_inputs end_object = ok image_inputs
  count_members image_inputs broken_object = err invalid_json
  count_members image_inputs (member name value rest) = elim (type_of name value) [
    | some text ↦ elim (text_eq text (codes "image")) [
      | true ↦ elim (add_images image_inputs 1) [ ok sum ↦ count_members sum rest | err e ↦ err e ]
      | false ↦ count_members image_inputs rest
    ]
    | none ↦ elim (count_image_inputs value) [
      | ok more ↦ elim (add_images image_inputs more) [
        | ok sum ↦ count_members sum rest
        | err e ↦ err e
      ]
      | err e ↦ err e
    ]
  ]

  pub count_elements : ℕ → Elements → Result AnthropicRequestError ℕ
  count_elements image_inputs end_array = ok image_inputs
  count_elements image_inputs broken_array = err invalid_json
  count_elements image_inputs (element value rest) = elim (count_image_inputs value) [
    | ok more ↦ elim (add_images image_inputs more) [
      | ok sum ↦ count_elements sum rest
      | err e ↦ err e
    ]
    | err e ↦ err e
  ]

pub record AnthropicRequestMetadata : Type 0 where
  pub image_inputs : ℕ
  pub max_tokens : ℕ
  pub streaming : Bool

-- What the loop over the members of the request has found.
pub record Found : Type 0 where
  pub max_tokens : Option ℕ
  pub streaming : Option Bool
  pub image_inputs : ℕ

abbrev next_number : Json → Result AnthropicRequestError ℕ
next_number (number value) = ok_or value invalid_max_tokens
next_number _ = err invalid_json

abbrev next_bool : Json → Result AnthropicRequestError Bool
next_bool (bool value) = ok value
next_bool _ = err invalid_json

-- One member of the request.
unfoldable pub inspect_member : Found → Text → Json → Result AnthropicRequestError Found
unfolding count_image_inputs
inspect_member found name value =
    if text_eq name (codes "max_tokens")
    then (do
      fail_if (is_some found.max_tokens) (duplicate_field (codes "max_tokens"))
      max_tokens ← next_number value
      ok (record {
        max_tokens = some max_tokens;
        streaming = found.streaming;
        image_inputs = found.image_inputs;
      }))
    else if text_eq name (codes "stream")
    then (do
      fail_if (is_some found.streaming) (duplicate_field (codes "stream"))
      streaming ← next_bool value
      ok (record {
        max_tokens = found.max_tokens;
        streaming = some streaming;
        image_inputs = found.image_inputs;
      }))
    else (do
      more ← count_image_inputs value
      image_inputs ← add_images found.image_inputs more
      ok (record {
        max_tokens = found.max_tokens;
        streaming = found.streaming;
        image_inputs = image_inputs;
      }))

unfoldable pub inspect_members : Found → Members → Result AnthropicRequestError Found
unfolding inspect_member
inspect_members found end_object = ok found
inspect_members found broken_object = err invalid_json
inspect_members found (member name value rest) = elim (inspect_member found name value) [
  | ok next ↦ inspect_members next rest
  | err e ↦ err e
]

abbrev begin_object : Json → Result AnthropicRequestError Members
begin_object (object members) = ok members
begin_object _ = err invalid_json

-- `filter(|value| *value > 0)`.
abbrev positive : Option ℕ → Option ℕ
positive none = none
positive (some value) = if ltb 0 value then some value else none

abbrev pub nothing_found : Found
nothing_found = record { max_tokens = none; streaming = none; image_inputs = 0 }

unfoldable pub inspect_request : Document → Result AnthropicRequestError AnthropicRequestMetadata
unfolding inspect_members
inspect_request document = do
  members ← begin_object document.value
  found ← inspect_members nothing_found members
  (if document.ends then ok tt else err invalid_json)
  max_tokens ← ok_or (positive found.max_tokens) invalid_max_tokens
  ok (record {
    image_inputs = found.image_inputs;
    max_tokens = max_tokens;
    streaming = unwrap_or found.streaming false;
  })

unfoldable pub budget_of : ℕ → AnthropicRequestMetadata → Result AnthropicRequestError ℕ
budget_of body_bytes metadata = do
  image_tokens ←
      ok_or (checked_mul metadata.image_inputs image_input_token_reserve) token_budget_overflow
  ok_or
      (bind_option (checked_add body_bytes image_tokens)
        λ tokens. checked_add tokens metadata.max_tokens)
      token_budget_overflow
