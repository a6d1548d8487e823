-- ===== src/OpenAiRequest/Prepare.antt =====
-- services/proxy/src/openai_request.rs: `prepare_openai_request`, over the rewriting of the request into a
-- temporary file.
use internal_ai_gateway.Base.{
  ℕ, ◌<◌, ◌≤◌, ◌≡◌, subst, Bool, true, false, List, Option, none, Text, codes, text_eq,
  if◌then◌else◌, Result, ok, err, ok_or, map_err, ◌>>=◌, >>=-ok, checked_add, u64_max, arith,
}
use internal_ai_gateway.Documents.{
  Json, object, array, string, number, bool, null, malformed, Members, Elements, member, end_object,
  broken_object, element, end_array, broken_array, Document,
}
use internal_ai_gateway.OpenAiRequest.{
  IoError, token_budget_overflow, worker_stopped, invalid_json, output_failed,
  calculate_token_budget,
}
use internal_ai_gateway.OpenAiRequest.Transform.{Writing, Values, Outcome, transform_json}
use internal_ai_gateway.OpenAiRequest.Transform.Events.{Log, Objects}
use internal_ai_gateway.OpenAiRequest.Transform.Whole.{transform_json_ok}

abbrev add_images : ℕ → ℕ → Outcome ℕ
add_images image_inputs more = ok_or (checked_add image_inputs more) token_budget_overflow

-- A member of this name is an image, whatever its value; the value is counted too.
abbrev image_of : Text → ℕ → Outcome ℕ
image_of name image_inputs =
    if text_eq name (codes "image_url") then add_images image_inputs 1 else ok image_inputs

unfoldable mutual
  pub count_image_inputs : Json → Outcome ℕ
  count_image_inputs (object members) = count_members 0 members
  count_image_inputs (array elements) = count_elements 0 elements
  count_image_inputs malformed = err (invalid_json none)
  count_image_inputs (string text) = ok 0
  count_image_inputs (number value) = ok 0
  count_image_inputs (bool value) = ok 0
  count_image_inputs null = ok 0

  pub count_members : ℕ → Members → Outcome ℕ
  count_members image_inputs end_object = ok image_inputs
  count_members image_inputs broken_object = err (invalid_json none)
  count_members image_inputs (member name value rest) = elim (image_of name image_inputs) [
    | ok so_far ↦ elim (count_image_inputs value) [
      | ok more ↦ elim (add_images so_far more) [ ok sum ↦ count_members sum rest | err e ↦ err e ]
      | err e ↦ err e
    ]
    | err e ↦ err e
  ]

  pub count_elements : ℕ → Elements → Outcome ℕ
  count_elements image_inputs end_array = ok image_inputs
  count_elements image_inputs broken_array = err (invalid_json none)
  count_elements image_inputs (element value rest) = elim (count_image_inputs value) [
    | ok more ↦ elim (add_images image_inputs more) [
      | ok sum ↦ count_elements sum rest
      | err e ↦ err e
    ]
    | err e ↦ err e
  ]

pub record PreparedOpenAiRequest : Type 0 where
  pub body : List ℕ
  pub streaming : Bool
  pub token_budget : ℕ

-- The temporary file behind the writer: its creation, the position in it, `seek` to its start, and what a
-- reader gets from the position on, which it leaves at any other.
pub record Spool (w : Writing) : Type 0 where
  pub tempfile : Result IoError w.JsonWriter
  pub stream_position : w.JsonWriter → Result IoError ℕ
  pub rewind : w.JsonWriter → Result IoError w.JsonWriter
  pub read : w.JsonWriter → List ℕ × w.JsonWriter

module _ (w : Writing) (v : Values) (failure : Option IoError) (files : Spool w) where
  -- `worker_stops` says whether the blocking task is lost. The document is what the reader finds behind the
  -- limit on nesting and keys.
  unfoldable pub prepare_openai_request : Bool → Document → ℕ → Outcome PreparedOpenAiRequest
  unfolding transform_json count_image_inputs calculate_token_budget
  prepare_openai_request worker_stops document default_max_completion_tokens =
      if worker_stops then err worker_stopped else (do
        writer ← map_err output_failed files.tempfile
        (metadata, file) ← transform_json w v failure document writer default_max_completion_tokens
        body_bytes ← map_err output_failed (files.stream_position file)
        file ← map_err output_failed (files.rewind file)
        let (bytes, file) = files.read file
        image_inputs ← count_image_inputs (w.read bytes).value
        file ← map_err output_failed (files.rewind file)
        token_budget ← calculate_token_budget body_bytes metadata.max_output_tokens image_inputs
        ok (record {
          body = (files.read file).0;
          streaming = metadata.streaming;
          token_budget = token_budget;
        }))

  budget_covers :
      (body_bytes max_output_tokens image_inputs budget : ℕ)
      → calculate_token_budget body_bytes max_output_tokens image_inputs ≡ ok budget
      → (max_output_tokens ≤ budget) × (budget ≤ u64_max)
  unfolding calculate_token_budget
  budget_covers body_bytes max_output_tokens image_inputs budget h = ground arith

  -- A prepared request has a positive budget within 64 bits, so that its reservation is never refused for
  -- its budget being zero.
  pub prepare_openai_request-positive :
      (l : Log w) (objects : Objects v) (worker_stops : Bool) (document : Document) (default : ℕ)
      (prepared : PreparedOpenAiRequest)
      → 0 < default
      → prepare_openai_request worker_stops document default ≡ ok prepared
      → (0 < prepared.token_budget) × (prepared.token_budget ≤ u64_max)
  unfolding prepare_openai_request
  prepare_openai_request-positive l objects true document default prepared p h = absurd (never h)
    where
      never : Path (Outcome PreparedOpenAiRequest) (err worker_stopped) (ok prepared) → ⊥
      never e = cc
  prepare_openai_request-positive l objects false document default prepared p h =
      let (x, _, h1) = >>=-ok (map_err output_failed files.tempfile) _ prepared h in
      let ((metadata, y), et, h2) =
        >>=-ok (transform_json w v failure document x default) _ prepared h1 in
      let (bytes, _, h3) = >>=-ok (map_err output_failed (files.stream_position y)) _ prepared h2 in
      let (z, _, h4) = >>=-ok (map_err output_failed (files.rewind y)) _ prepared h3 in
      let (images, _, h5) =
        >>=-ok (count_image_inputs (w.read (files.read z).0).value) _ prepared h4 in
      let (again, _, h6) =
        >>=-ok (map_err output_failed (files.rewind (files.read z).1)) _ prepared h5 in
      let (budget, eb, h7) =
        >>=-ok (calculate_token_budget bytes metadata.max_output_tokens images) _ prepared h6 in
      let (_, _, _, (_, _, _, limit, _)) =
        transform_json_ok w v failure l objects document x y default metadata p et in
      let (k, u) = budget_covers bytes metadata.max_output_tokens images budget eb in
      let same : budget ≡ prepared.token_budget = the_budget _ budget h7 in
      subst (λ b. (0 < b) × (b ≤ u64_max)) same (omega (arith, limit, k), u)
    where
      the_budget :
          (r : PreparedOpenAiRequest) (budget : ℕ)
          → Path (Outcome PreparedOpenAiRequest) (ok r) (ok prepared)
          → r.token_budget ≡ prepared.token_budget
      the_budget r budget e = cc
