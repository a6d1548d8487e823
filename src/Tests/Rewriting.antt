-- ===== src/Tests/Rewriting.antt =====
-- A run of the theorem on the rewriting of requests to OpenAI.
use internal_ai_gateway.Base.{
  ℕ, ◌≡◌, false, true, Bool, List, [], ◌∷◌, ◌++◌, Option, none, some, Text, Result, ok, codes,
  text_eq, if◌then◌else◌,
}
use internal_ai_gateway.Documents.{Json, object, string, number, bool, member, end_object, Document}
use internal_ai_gateway.OpenAiRequest.{IoError}
use internal_ai_gateway.OpenAiRequest.Transform.{
  Writing, Values, TransferError, OpenAiRequestMetadata,
}
use internal_ai_gateway.OpenAiRequest.Transform.Events.{Event, named, passed, Log}

-- A text for each value that the run meets.
abbrev text_of : Json → List ℕ
text_of (bool true) = codes "true"
text_of (number (some n)) = codes "5"
text_of _ = codes "{}"

abbrev read_text : List ℕ → Json
read_text text = if text_eq text (codes "true") then bool true else number (some 5)

-- A writer that keeps what it is told.
abbrev writing : Writing
writing = record {
  JsonWriter = List Event;
  begin_object = λ x. ok x;
  name = λ n x. ok (x ++ named n ∷ []);
  number_value = λ n x. ok (x ++ Event.numbered n ∷ []);
  transfer_to = λ j x. ok (x ++ passed j ∷ []);
  end_object = λ x. ok x;
  finish = λ x. ok x;
  transfer_to_buffer =
      λ j b. (ok tt, record { bytes = text_of j; limit = b.limit; limit_exceeded = false });
  read = λ bytes. record { value = read_text bytes; ends = true };
}

same : (x y : List Event) → Path (Result IoError (List Event)) (ok x) (ok y) → y ≡ x
same x y e = cc

same_transfer : (x y : List Event) → Path (Result TransferError (List Event)) (ok x) (ok y) → y ≡ x
same_transfer x y e = cc

writing-Log : Log writing
writing-Log = record {
  events = λ x. x;
  after_begin = λ x y e. same x y e;
  after_name = λ n x y e. same (x ++ named n ∷ []) y e;
  after_number = λ n x y e. same (x ++ Event.numbered n ∷ []) y e;
  after_transfer = λ j x y e. same_transfer (x ++ passed j ∷ []) y e;
  after_end = λ x y e. same x y e;
  after_finish = λ x y e. same x y e;
}

-- The values of the run: Booleans, numbers, and objects with one member at most.
data Value : Type 0 where
  boolean : Bool → Value
  count : ℕ → Value
  nothing : Value
  one_member : Text → Value → Value

abbrev as_bool : Value → Option Bool
as_bool (boolean b) = some b
as_bool _ = none

abbrev as_u64 : Value → Option ℕ
as_u64 (count n) = some n
as_u64 _ = none

abbrev get : Text → Value → Option Value
get key (one_member name value) = if text_eq key name then some value else none
get key _ = none

abbrev values : Values
values = record {
  Value = Value;
  from_slice = λ bytes. some (if text_eq bytes (codes "true") then boolean true else count 5);
  as_bool = as_bool;
  as_u64 = as_u64;
  is_null = λ value. false;
  empty_object = nothing;
  bool = boolean;
  insert = λ key value object. some (one_member key value);
  to_vec = λ value. some (codes "{}");
}

abbrev document : Document
document = record {
  value = object (
      member (codes "max_tokens") (number (some 5)) (
        member (codes "stream") (bool true)
          (member (codes "model") (string (codes "m")) end_object)));
  ends = true;
}

abbrev metadata : OpenAiRequestMetadata
metadata = record { max_output_tokens = 5; streaming = true }

abbrev rewritten : List Event
rewritten =
    named (codes "model")
    ∷ passed (string (codes "m"))
    ∷ named (codes "stream")
    ∷ passed (bool true)
    ∷ named (codes "stream_options")
    ∷ passed (number (some 5))
    ∷ named (codes "max_tokens")
    ∷ passed (number (some 5))
    ∷ []
