-- ===== src/Tests/Preparation.antt =====
-- Runs of the theorems on the preparation of requests to Anthropic.
use internal_ai_gateway.Base.{text_eq}
use internal_ai_gateway.Base.{
  ℕ, ◌+◌, ◌*◌, ◌≡◌, ◌≤◌, refl, true, false, List, [], ◌∷◌, ◌++◌, some, Result, ok, codes, length,
  take, drop, u64_max,
}
use internal_ai_gateway.Documents.{Json, object, string, number, member, end_object, Document}
use internal_ai_gateway.OpenAiRequest.{IoError}
use internal_ai_gateway.AnthropicRequest.{
  count_image_inputs, inspect_request, AnthropicRequestMetadata, image_input_token_reserve,
  max_spooled_request_bytes,
}
use internal_ai_gateway.AnthropicRequest.Images.{images, to_option, added, count_image_inputs_lem}
use internal_ai_gateway.AnthropicRequest.Files.{Files, IsKept}
use internal_ai_gateway.AnthropicRequest.Prepare.{
  PreparedAnthropicRequest, prepare_anthropic_request, prepare_anthropic_request_ok, bytes_of,
}

abbrev image : Json
image = object (member (codes "type") (string (codes "image")) end_object)

count_image_inputs_lem_example : to_option (count_image_inputs image) ≡ added 0 (images image)
count_image_inputs_lem_example = count_image_inputs_lem image

-- Files that keep what they are given, with the position in it; a reader reads them to their end.
abbrev pub files : Files
files = record {
  File = List ℕ × ℕ;
  tempfile = ok ([], 0);
  write = λ input (bytes, at).
      ok (take at bytes ++ (input ++ drop (at + length input) bytes), at + length input);
  flush = λ file. ok file;
  rewind = λ (bytes, _). ok (bytes, 0);
  read = λ (bytes, at). (drop at bytes, (bytes, length bytes));
}

same :
    (f g : List ℕ × ℕ)
    → Path (Result IoError (List ℕ × ℕ)) (ok f) (ok g)
    → (g.0 ≡ f.0) × (g.1 ≡ f.1)
same f g e = (cc, cc)

pub files-IsKept : IsKept files
files-IsKept = record {
  contents = λ f. f.0;
  position = λ f. f.1;
  empty = λ f e. same ([], 0) f e;
  written = λ input f g e.
      same (take f.1 f.0 ++ (input ++ drop (f.1 + length input) f.0), f.1 + length input) g e;
  flushed = λ f g e. same f g e;
  rewound = λ f g e. same (f.0, 0) g e;
  read_from = λ f. (refl, refl);
}

abbrev pub parse : List ℕ → Document
parse bytes = record {
  value =
      object
        (member (codes "max_tokens") (number (some 5)) (member (codes "content") image end_object));
  ends = true;
}

abbrev pub reads : List (Result IoError (List ℕ))
reads = ok (codes "{\"max") ∷ ok (codes "..}") ∷ []

abbrev prepared : PreparedAnthropicRequest
prepared = record {
  body = codes "{\"max..}";
  streaming = false;
  token_budget = 8 + 1 * image_input_token_reserve + 5;
}

prepare_anthropic_request_ok_example :
    (metadata : AnthropicRequestMetadata) × (inspect_request (parse (bytes_of files parse reads))
      ≡ ok metadata)
    × (prepared.body ≡ bytes_of files parse reads)
    × (false ≡ metadata.streaming)
    × (prepared.token_budget
        ≡ length (bytes_of files parse reads)
          + metadata.image_inputs * image_input_token_reserve
          + metadata.max_tokens)
    × (length (bytes_of files parse reads) ≤ max_spooled_request_bytes)
    × (prepared.token_budget ≤ u64_max)
unfolding prepare_anthropic_request text_eq
prepare_anthropic_request_ok_example =
    prepare_anthropic_request_ok files parse files-IsKept false reads prepared refl
