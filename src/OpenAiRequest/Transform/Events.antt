-- ===== src/OpenAiRequest/Transform/Events.antt =====
-- What the rewriting of a request is to write, said of the members of the request.
use internal_ai_gateway.Base.{
  ℕ, ◌≡◌, Bool, true, false, ◌||◌, List, [], ◌∷◌, ◌++◌, Option, none, some, Text, codes, text_eq,
  if◌then◌else◌, ok, bind_option,
}
use internal_ai_gateway.Documents.{Json, Members, member, end_object, broken_object}
use internal_ai_gateway.OpenAiRequest.Transform.{
  Writing, Values, Controls, max_stream_control_bytes,
}

-- What a writer is told: the name of a member, a value that is passed on, or a number.
pub data Event : Type 0 where
  named : Text → Event
  passed : Json → Event
  numbered : ℕ → Event

-- What was written to a writer, in its order.
pub record Log (w : Writing) : Type 0 where
  pub events : w.JsonWriter → List Event
  pub after_begin : (x y : w.JsonWriter) → w.begin_object x ≡ ok y → events y ≡ events x
  pub after_name :
      (n : Text) (x y : w.JsonWriter) → w.name n x ≡ ok y → events y ≡ events x ++ named n ∷ []
  pub after_number :
      (n : ℕ) (x y : w.JsonWriter)
      → w.number_value n x ≡ ok y
      → events y ≡ events x ++ numbered n ∷ []
  pub after_transfer :
      (j : Json) (x y : w.JsonWriter)
      → w.transfer_to j x ≡ ok y
      → events y ≡ events x ++ passed j ∷ []
  pub after_end : (x y : w.JsonWriter) → w.end_object x ≡ ok y → events y ≡ events x
  pub after_finish : (x y : w.JsonWriter) → w.finish x ≡ ok y → events y ≡ events x

-- What an object has under a key after an insertion.
pub record Objects (v : Values) : Type 0 where
  pub get : Text → v.Value → Option v.Value
  pub inserted :
      (key : Text) (value object after : v.Value)
      → v.insert key value object ≡ some after
      → get key after ≡ some value

abbrev pub is_control : Text → Bool
is_control name =
    text_eq name (codes "stream")
    || text_eq name (codes "stream_options")
    || text_eq name (codes "max_completion_tokens")
    || text_eq name (codes "max_tokens")

-- The members that are no controls.
unfoldable pub other_events : Members → List Event
other_events end_object = []
other_events broken_object = []
other_events (member name value rest) =
    let events = other_events rest in
    if is_control name then events else named name ∷ passed value ∷ events

abbrev pub if_control : Bool → Text → Json → List Event
if_control true name value = []
if_control false name value = named name ∷ passed value ∷ []

module _ (w : Writing) (v : Values) where
  -- The bytes that are held back of a control's value.
  abbrev pub held_back : Json → List ℕ
  held_back value =
      (w.transfer_to_buffer value
        (record { bytes = []; limit = max_stream_control_bytes; limit_exceeded = false })).1.bytes

  -- The controls of the request, by the members of their names.
  abbrev pub noted : Text → Json → Controls → Controls
  noted name value c =
      if text_eq name (codes "stream")
      then record c { stream_value = some (held_back value) }
      else if text_eq name (codes "stream_options")
      then record c { stream_options = some (held_back value) }
      else if text_eq name (codes "max_completion_tokens")
      then record c { max_completion_tokens = some (held_back value) }
      else if text_eq name (codes "max_tokens")
      then record c { max_tokens = some (held_back value) }
      else c

  unfoldable pub controls_of : Members → Controls → Controls
  controls_of end_object c = c
  controls_of broken_object c = c
  controls_of (member name value rest) c = controls_of rest (noted name value c)

  -- Whether the value of `stream` is the JSON text of `true`.
  abbrev pub is_true : Option Bool → Bool
  is_true (some true) = true
  is_true _ = false

  unfoldable pub asks_for_stream : Option (List ℕ) → Bool
  asks_for_stream none = false
  asks_for_stream (some bytes) = elim (v.from_slice bytes) [
    | none ↦ false
    | some value ↦ is_true (v.as_bool value)
  ]

  abbrev pub captured_events : Text → Option (List ℕ) → List Event
  captured_events name none = []
  captured_events name (some bytes) = named name ∷ passed (w.read bytes).value ∷ []

  -- A stream always has options.
  abbrev pub options_events : Bool → Option (List ℕ) → List ℕ → List Event
  options_events true options forced = captured_events (codes "stream_options") (some forced)
  options_events false options forced = captured_events (codes "stream_options") options

  -- There is always a limit of the answer's tokens.
  abbrev pub limit_events : ℕ → Option (List ℕ) → Option (List ℕ) → List Event
  limit_events limit (some bytes) tokens =
      captured_events (codes "max_completion_tokens") (some bytes)
  limit_events limit none (some bytes) = []
  limit_events limit none none = named (codes "max_completion_tokens") ∷ numbered limit ∷ []

  abbrev pub control_events : ℕ → Bool → List ℕ → Controls → List Event
  control_events limit streaming forced c =
      captured_events (codes "stream") c.stream_value
      ++ options_events streaming c.stream_options forced
      ++ limit_events limit c.max_completion_tokens c.max_tokens
      ++ captured_events (codes "max_tokens") c.max_tokens

  -- The bytes of the options of a stream stand for an object with `include_usage` set.
  abbrev pub IsForced : Objects v → Bool → List ℕ → Type 0
  IsForced objects true forced =
      (options : v.Value) × (v.to_vec options ≡ some forced)
      × (objects.get (codes "include_usage") options ≡ some (v.bool true))
  IsForced objects false forced = Unit

  -- The limit is the client's, or the default.
  abbrev pub IsLimit : ℕ → Option (List ℕ) → Option (List ℕ) → ℕ → Type 0
  IsLimit default (some bytes) tokens n = bind_option (v.from_slice bytes) v.as_u64 ≡ some n
  IsLimit default none (some bytes) n = bind_option (v.from_slice bytes) v.as_u64 ≡ some n
  IsLimit default none none n = default ≡ n
