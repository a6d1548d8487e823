-- ===== src/OpenAiRequest.antt =====
-- services/proxy/src/openai_request.rs: the token budget of a request, the writers that limit what is
-- spooled and captured, and the reader that limits the nesting and the keys of the JSON that it passes
-- on. The writer inside a spool writer is a parameter.
pub mod Limits
pub mod Transform
pub mod Prepare
use internal_ai_gateway.Base.{
  ℕ, suc, Text, ◌+◌, ◌*◌, Bool, true, false, List, [], ◌∷◌, ◌++◌, Option, none, some, length, ltb,
  leb, ◌==◌, if◌then◌else◌, Result, ok, err, ok_or, checked_add, checked_mul, bind_option,
  saturating_add,
}
use internal_ai_gateway.Base.Actions.{Action, ◌>>=◌, ◌>>◌, pure}

abbrev pub image_input_token_reserve : ℕ
image_input_token_reserve = 32_768

abbrev pub max_json_key_bytes : ℕ
max_json_key_bytes = 8 * 1024

abbrev pub max_json_nesting_depth : ℕ
max_json_nesting_depth = 128

-- The kinds of `io::Error` that the limits raise, that of an upload that takes too long, and the others.
pub data IoError : Type 0 where
  file_too_large invalid_data timed_out other : IoError

-- Where the reader failed because its input did, `invalid_json` has the kind of the failure.
pub data OpenAiRequestTransformError : Type 0 where
  token_budget_overflow invalid_control_json invalid_stream_options worker_stopped :
      OpenAiRequestTransformError
  control_field_too_large duplicate_control_field invalid_token_limit :
      Text → OpenAiRequestTransformError
  invalid_json : Option IoError → OpenAiRequestTransformError
  output_failed : IoError → OpenAiRequestTransformError

unfoldable pub is_client_error : OpenAiRequestTransformError → Bool
is_client_error (output_failed error) = false
is_client_error worker_stopped = false
is_client_error _ = true

unfoldable pub is_request_too_large : OpenAiRequestTransformError → Bool
is_request_too_large (output_failed file_too_large) = true
is_request_too_large _ = false

unfoldable pub is_upload_timeout : OpenAiRequestTransformError → Bool
is_upload_timeout (invalid_json (some timed_out)) = true
is_upload_timeout (output_failed timed_out) = true
is_upload_timeout _ = false

unfoldable pub calculate_token_budget : ℕ → ℕ → ℕ → Result OpenAiRequestTransformError ℕ
calculate_token_budget body_bytes max_output_tokens image_inputs =
    elim (checked_mul image_inputs image_input_token_reserve) [
      | none ↦ err token_budget_overflow
      | some image_token_reserve ↦
          ok_or
            (bind_option (checked_add body_bytes image_token_reserve)
              λ input_budget. checked_add input_budget max_output_tokens)
            token_budget_overflow
    ]

pub record LimitedSpoolWriter (W : Type 0) : Type 0 where
  pub inner : W
  pub limit : ℕ
  pub written : ℕ

module _ {W : Type 0} (inner_write : List ℕ → W → Result IoError ℕ × W) where
  abbrev pub spooled :
      LimitedSpoolWriter W → Result IoError ℕ × W → Result IoError ℕ × LimitedSpoolWriter W
  spooled w (ok written, inner) = (
    ok written,
    record { inner = inner; limit = w.limit; written = saturating_add w.written written },
  )
  spooled w (err e, inner) = (err e, record { inner = inner; limit = w.limit; written = w.written })

  unfoldable pub write_spool : List ℕ → Action (LimitedSpoolWriter W) IoError ℕ
  write_spool input w =
      if ltb w.limit (saturating_add w.written (length input))
      then (err file_too_large, w)
      else spooled w (inner_write input w.inner)

pub record LimitedBuffer : Type 0 where
  pub bytes : List ℕ
  pub limit : ℕ
  pub limit_exceeded : Bool

unfoldable pub write_buffer : List ℕ → Action LimitedBuffer IoError ℕ
write_buffer input b =
    if ltb b.limit (saturating_add (length b.bytes) (length input))
    then (err invalid_data, record { bytes = b.bytes; limit = b.limit; limit_exceeded = true })
    else (
      ok (length input),
      record { bytes = b.bytes ++ input; limit = b.limit; limit_exceeded = b.limit_exceeded },
    )

pub data ContainerKind : Type 0 where
  array : ContainerKind
  object : (expecting_key : Bool) → ContainerKind

-- The stack of containers has its top first.
pub record JsonKeyLimitReader : Type 0 where
  pub containers : List ContainerKind
  pub escaped : Bool
  pub in_key : Bool
  pub in_string : Bool
  pub key_bytes : ℕ

unfoldable pub new_reader : JsonKeyLimitReader
new_reader = record {
  containers = [];
  escaped = false;
  in_key = false;
  in_string = false;
  key_bytes = 0;
}

-- Whether a string that begins here is a key.
abbrev pub expects_key : List ContainerKind → Bool
expects_key [] = false
expects_key (array ∷ containers) = false
expects_key (object expecting_key ∷ containers) = expecting_key

-- `containers.last_mut()`, where it is an object.
abbrev pub set_expecting : Bool → List ContainerKind → List ContainerKind
set_expecting expecting_key [] = []
set_expecting expecting_key (array ∷ containers) = array ∷ containers
set_expecting expecting_key (object before ∷ containers) = object expecting_key ∷ containers

abbrev pub pop : List ContainerKind → List ContainerKind
pop [] = []
pop (container ∷ containers) = containers

abbrev pub with_containers : List ContainerKind → JsonKeyLimitReader → JsonKeyLimitReader
with_containers containers r = record {
  containers = containers;
  escaped = r.escaped;
  in_key = r.in_key;
  in_string = r.in_string;
  key_bytes = r.key_bytes;
}

unfoldable pub push_container : ContainerKind → Action JsonKeyLimitReader IoError (Unit {0})
push_container container r =
    if leb max_json_nesting_depth (length r.containers)
    then (err invalid_data, r)
    else (ok tt, with_containers (container ∷ r.containers) r)

-- A byte of a string that does not end it.
unfoldable pub inspect_content : Bool → Action JsonKeyLimitReader IoError (Unit {0})
inspect_content escaped r =
    let key_bytes = if r.in_key then r.key_bytes + 1 else r.key_bytes in
    let after : JsonKeyLimitReader = record {
      containers = r.containers;
      escaped = escaped;
      in_key = r.in_key;
      in_string = r.in_string;
      key_bytes = key_bytes;
    } in
    if r.in_key
    then (if ltb max_json_key_bytes key_bytes then (err invalid_data, after) else (ok tt, after))
    else (ok tt, after)

unfoldable pub inspect_string : ℕ → Action JsonKeyLimitReader IoError (Unit {0})
unfolding inspect_content
inspect_string byte r =
    if r.escaped
    then inspect_content false r
    else if byte == b'\\'
    then inspect_content true r
    else if byte == b'"'
    then (
      ok tt,
      record {
        containers = r.containers;
        escaped = r.escaped;
        in_key = false;
        in_string = false;
        key_bytes = r.key_bytes;
      },
    )
    else inspect_content r.escaped r

unfoldable pub inspect_structure : ℕ → Action JsonKeyLimitReader IoError (Unit {0})
unfolding push_container
inspect_structure byte r =
    if byte == b'"'
    then (
      ok tt,
      record {
        containers = r.containers;
        escaped = r.escaped;
        in_key = expects_key r.containers;
        in_string = true;
        key_bytes = 0;
      },
    )
    else if byte == b'{'
    then push_container (object true) r
    else if byte == b'['
    then push_container array r
    else if byte == b'}'
    then (ok tt, with_containers (pop r.containers) r)
    else if byte == b']'
    then (ok tt, with_containers (pop r.containers) r)
    else if byte == b':'
    then (ok tt, with_containers (set_expecting false r.containers) r)
    else if byte == b','
    then (ok tt, with_containers (set_expecting true r.containers) r)
    else (ok tt, r)

unfoldable pub inspect_byte : ℕ → Action JsonKeyLimitReader IoError (Unit {0})
unfolding inspect_string inspect_structure
inspect_byte byte r = if r.in_string then inspect_string byte r else inspect_structure byte r

unfoldable pub inspect : List ℕ → Action JsonKeyLimitReader IoError (Unit {0})
inspect [] = pure (ok tt)
inspect (byte ∷ bytes) = inspect_byte byte >> inspect bytes
