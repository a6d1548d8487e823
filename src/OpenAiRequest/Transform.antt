-- ===== src/OpenAiRequest/Transform.antt =====
-- services/proxy/src/openai_request.rs: `transform_json`, which passes a request on member by member, holds its
-- controls back and writes them behind the others. struson's writer, its transfer of a value, and
-- serde_json's values are parameters.
pub mod Events
pub mod Laws
pub mod Whole
use internal_ai_gateway.Base.{
  ℕ, ◌*◌, Bool, true, false, List, [], ◌∷◌, Option, none, some, Text, codes, ltb, is_some, text_eq,
  if◌then◌else◌, Result, ok, err, ok_or, map_err, fail_if, ◌>>=◌, ◌>>◌, bind_option,
}
use internal_ai_gateway.Documents.{
  Json, object, Members, member, end_object, broken_object, Document,
}
use internal_ai_gateway.OpenAiRequest.{
  IoError, LimitedBuffer, OpenAiRequestTransformError, duplicate_control_field,
  control_field_too_large, invalid_control_json, invalid_stream_options, invalid_token_limit,
  invalid_json, output_failed,
}

pub data TransferError : Type 0 where
  reader_error : Option IoError → TransferError
  writer_error : IoError → TransferError

abbrev pub map_transfer_error : TransferError → OpenAiRequestTransformError
map_transfer_error (reader_error e) = invalid_json e
map_transfer_error (writer_error e) = output_failed e

abbrev pub max_stream_control_bytes : ℕ
max_stream_control_bytes = 64 * 1024

-- struson's writer and reader.
pub record Writing : Type 1 where
  pub JsonWriter : Type 0
  pub begin_object : JsonWriter → Result IoError JsonWriter
  pub name : Text → JsonWriter → Result IoError JsonWriter
  pub number_value : ℕ → JsonWriter → Result IoError JsonWriter
  pub transfer_to : Json → JsonWriter → Result TransferError JsonWriter
  pub end_object : JsonWriter → Result IoError JsonWriter
  -- `finish_document` and `flush`.
  pub finish : JsonWriter → Result IoError JsonWriter
  -- The transfer of a value to a buffer of its own, to its end.
  pub transfer_to_buffer : Json → LimitedBuffer → Result TransferError (Unit {0}) × LimitedBuffer
  -- A reader on bytes.
  pub read : List ℕ → Document

-- serde_json's values; `insert` is `as_object_mut`, and then the insertion of a value under a key.
pub record Values : Type 1 where
  pub Value : Type 0
  pub from_slice : List ℕ → Option Value
  pub as_bool : Value → Option Bool
  pub as_u64 : Value → Option ℕ
  pub is_null : Value → Bool
  pub empty_object : Value
  pub bool : Bool → Value
  pub insert : Text → Value → Value → Option Value
  pub to_vec : Value → Option (List ℕ)

pub record Controls : Type 0 where
  pub stream_value : Option (List ℕ)
  pub stream_options : Option (List ℕ)
  pub max_completion_tokens : Option (List ℕ)
  pub max_tokens : Option (List ℕ)

pub record OpenAiRequestMetadata : Type 0 where
  pub max_output_tokens : ℕ
  pub streaming : Bool

abbrev pub Outcome : Type 0 → Type 0
Outcome A = Result OpenAiRequestTransformError A

-- `failure` is what the reader reports where the document breaks off.
module _ (w : Writing) (v : Values) (failure : Option IoError) where
  open w use {JsonWriter}

  unfoldable pub capture_control_value : Json → Text → Outcome (List ℕ)
  capture_control_value value field =
      let (transferred, output) =
        w.transfer_to_buffer value
          (record { bytes = []; limit = max_stream_control_bytes; limit_exceeded = false }) in
      if output.limit_exceeded
      then err (control_field_too_large field)
      else (do map_err map_transfer_error transferred; ok output.bytes)

  -- A control that is not captured yet.
  abbrev pub capture_once : Option (List ℕ) → Json → Text → Outcome (List ℕ)
  capture_once found value field = do
    fail_if (is_some found) (duplicate_control_field field)
    capture_control_value value field

  unfoldable pub transform_member :
      Text → Json → Controls × JsonWriter → Outcome (Controls × JsonWriter)
  unfolding capture_control_value
  transform_member name value (c, writer) =
      if text_eq name (codes "stream")
      then (do
        captured ← capture_once c.stream_value value (codes "stream")
        ok (
          record {
            stream_value = some captured;
            stream_options = c.stream_options;
            max_completion_tokens = c.max_completion_tokens;
            max_tokens = c.max_tokens;
          },
          writer,
        ))
      else if text_eq name (codes "stream_options")
      then (do
        captured ← capture_once c.stream_options value (codes "stream_options")
        ok (
          record {
            stream_value = c.stream_value;
            stream_options = some captured;
            max_completion_tokens = c.max_completion_tokens;
            max_tokens = c.max_tokens;
          },
          writer,
        ))
      else if text_eq name (codes "max_completion_tokens")
      then (do
        captured ← capture_once c.max_completion_tokens value (codes "max_completion_tokens")
        ok (
          record {
            stream_value = c.stream_value;
            stream_options = c.stream_options;
            max_completion_tokens = some captured;
            max_tokens = c.max_tokens;
          },
          writer,
        ))
      else if text_eq name (codes "max_tokens")
      then (do
        captured ← capture_once c.max_tokens value (codes "max_tokens")
        ok (
          record {
            stream_value = c.stream_value;
            stream_options = c.stream_options;
            max_completion_tokens = c.max_completion_tokens;
            max_tokens = some captured;
          },
          writer,
        ))
      else (do
        writer ← map_err output_failed (w.name name writer)
        writer ← map_err map_transfer_error (w.transfer_to value writer)
        ok (c, writer))

  unfoldable pub transform_members :
      Members → Controls × JsonWriter → Outcome (Controls × JsonWriter)
  unfolding transform_member
  transform_members end_object state = ok state
  transform_members broken_object state = err (invalid_json failure)
  transform_members (member name value rest) state = elim (transform_member name value state) [
    | ok next ↦ transform_members rest next
    | err e ↦ err e
  ]

  unfoldable pub write_captured_member : Text → List ℕ → JsonWriter → Outcome JsonWriter
  write_captured_member name value writer = do
    writer ← map_err output_failed (w.name name writer)
    writer ← map_err map_transfer_error (w.transfer_to (w.read value).value writer)
    if (w.read value).ends then ok writer else err (invalid_json none)

  abbrev pub write_captured : Text → Option (List ℕ) → JsonWriter → Outcome JsonWriter
  write_captured name none writer = ok writer
  write_captured name (some value) writer = write_captured_member name value writer

  abbrev pub control_value : Option (List ℕ) → Outcome v.Value
  control_value none = ok v.empty_object
  control_value (some value) = ok_or (v.from_slice value) invalid_control_json

  unfoldable pub force_usage_option : Option (List ℕ) → Outcome (List ℕ)
  force_usage_option stream_options = do
    value ← control_value stream_options
    forced ←
        ok_or
          (v.insert (codes "include_usage") (v.bool true)
            (if v.is_null value then v.empty_object else value))
          invalid_stream_options
    ok_or (v.to_vec forced) invalid_control_json

  abbrev pub positive : Option ℕ → Option ℕ
  positive none = none
  positive (some n) = if ltb 0 n then some n else none

  unfoldable pub parse_positive_token_limit : List ℕ → Text → Outcome ℕ
  parse_positive_token_limit value field =
      ok_or (positive (bind_option (v.from_slice value) v.as_u64)) (invalid_token_limit field)

  abbrev pub is_true : Option Bool → Bool
  is_true none = false
  is_true (some b) = b

  unfoldable pub is_streaming : Option (List ℕ) → Bool
  is_streaming stream_value =
      is_true (bind_option (bind_option stream_value v.from_slice) v.as_bool)

  unfoldable pub write_stream_options : Bool → Option (List ℕ) → JsonWriter → Outcome JsonWriter
  unfolding force_usage_option write_captured_member
  write_stream_options true stream_options writer = do
    forced ← force_usage_option stream_options
    write_captured_member (codes "stream_options") forced writer
  write_stream_options false stream_options writer =
      write_captured (codes "stream_options") stream_options writer

  unfoldable pub output_limit : ℕ → Option (List ℕ) → Option (List ℕ) → Outcome ℕ
  unfolding parse_positive_token_limit
  output_limit default (some value) max_tokens =
      parse_positive_token_limit value (codes "max_completion_tokens")
  output_limit default none (some value) = parse_positive_token_limit value (codes "max_tokens")
  output_limit default none none = ok default

  unfoldable pub write_limit :
      ℕ → Option (List ℕ) → Option (List ℕ) → JsonWriter → Outcome JsonWriter
  unfolding write_captured_member
  write_limit max_output_tokens (some value) max_tokens writer =
      write_captured_member (codes "max_completion_tokens") value writer
  write_limit max_output_tokens none (some value) writer = ok writer
  write_limit max_output_tokens none none writer = do
    writer ← map_err output_failed (w.name (codes "max_completion_tokens") writer)
    map_err output_failed (w.number_value max_output_tokens writer)

  abbrev pub begin : Json → Outcome Members
  begin (object members) = ok members
  begin _ = err (invalid_json failure)

  abbrev pub no_controls : Controls
  no_controls = record {
    stream_value = none;
    stream_options = none;
    max_completion_tokens = none;
    max_tokens = none;
  }

  -- The controls, behind the other members.
  unfoldable pub write_controls :
      ℕ → Controls → JsonWriter → Outcome (OpenAiRequestMetadata × JsonWriter)
  unfolding is_streaming write_stream_options output_limit write_limit write_captured_member
  write_controls default c writer = do
    let streaming = is_streaming c.stream_value
    writer ← write_captured (codes "stream") c.stream_value writer
    writer ← write_stream_options streaming c.stream_options writer
    max_output_tokens ← output_limit default c.max_completion_tokens c.max_tokens
    writer ← write_limit max_output_tokens c.max_completion_tokens c.max_tokens writer
    writer ← write_captured (codes "max_tokens") c.max_tokens writer
    writer ← map_err output_failed (w.end_object writer)
    writer ← map_err output_failed (w.finish writer)
    ok (record { max_output_tokens = max_output_tokens; streaming = streaming }, writer)

  unfoldable pub transform_json :
      Document → JsonWriter → ℕ → Outcome (OpenAiRequestMetadata × JsonWriter)
  unfolding transform_members write_controls
  transform_json document writer default_max_completion_tokens = do
    members ← begin document.value
    writer ← map_err output_failed (w.begin_object writer)
    (controls, writer) ← transform_members members (no_controls, writer)
    (if document.ends then ok tt else err (invalid_json failure))
    write_controls default_max_completion_tokens controls writer
