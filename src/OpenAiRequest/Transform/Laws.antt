-- ===== src/OpenAiRequest/Transform/Laws.antt =====
-- What the rewritten request names: every member that is no control, then each control at most once.
use internal_ai_gateway.Base.{
  ℕ, ◌<◌, ◌≡◌, refl, sym, ap, ◌∙◌, inl, inr, Bool, true, false, List, [], ◌∷◌, ◌++◌, append-nil,
  append_assoc, Option, none, some, Text, codes, text_eq, if◌then◌else◌, Result, ok, err, map_err,
  ok_or, ◌>>=◌, ◌>>◌, >>=-ok, map_err-ok, ok_or-ok, Bool-cases, Option-cases, bind_option, ltb,
  arith,
}
use internal_ai_gateway.Documents.{Json}
use internal_ai_gateway.OpenAiRequest.{
  IoError, invalid_json, output_failed, invalid_stream_options, control_field_too_large,
}
use internal_ai_gateway.OpenAiRequest.Transform
use internal_ai_gateway.OpenAiRequest.Transform.{
  Writing, Values, Controls, Outcome, TransferError, map_transfer_error, max_stream_control_bytes,
  capture_control_value, capture_once, control_value, transform_member, write_captured_member,
  write_captured, is_streaming, write_stream_options, output_limit, write_limit,
  parse_positive_token_limit, positive, force_usage_option,
}
use internal_ai_gateway.OpenAiRequest.Transform.Events.{
  named, passed, numbered, Log, Objects, is_control, if_control, held_back, noted, is_true,
  asks_for_stream, captured_events, options_events, limit_events, IsForced, IsLimit,
}

module _ (w : Writing) (v : Values) (failure : Option IoError) (l : Log w) where
  open w use {JsonWriter}

  -- A member is a name and the value behind it.
  member_written :
      (name : Text) (value : Json) (x a b : JsonWriter)
      → w.name name x ≡ ok a
      → w.transfer_to value a ≡ ok b
      → l.events b ≡ l.events x ++ named name ∷ passed value ∷ []
  member_written name value x a b ea eb =
      l.after_transfer value a b eb
      ∙ ap (λ n. n ++ passed value ∷ []) (l.after_name name x a ea)
      ∙ append_assoc (l.events x) (named name ∷ []) (passed value ∷ [])

  write_captured_member-events :
      (name : Text) (value : List ℕ) (x y : JsonWriter)
      → write_captured_member w v failure name value x ≡ ok y
      → l.events y ≡ l.events x ++ captured_events w v name (some value)
  unfolding write_captured_member
  write_captured_member-events name value x y h =
      let (a, ea, h1) = >>=-ok (map_err output_failed (w.name name x)) _ y h in
      let (b, eb, h2) =
        >>=-ok (map_err map_transfer_error (w.transfer_to (w.read value).value a)) _ y h1 in
      let same = ends (w.read value).ends b y h2 in
      ap l.events (sym same)
      ∙ member_written name (w.read value).value x a b (map_err-ok output_failed _ a ea)
          (map_err-ok map_transfer_error _ b eb)
    where
      ends :
          (test : Bool) (b y : JsonWriter)
          → Path (Outcome JsonWriter) (if test then ok b else err (invalid_json none)) (ok y)
          → b ≡ y
      ends true b y e = cc
      ends false b y e = cc

  unwritten :
      (x y : JsonWriter) → Path (Outcome JsonWriter) (ok x) (ok y) → l.events y ≡ l.events x ++ []
  unwritten x y h = ap l.events (sym same) ∙ sym (append-nil (l.events x))
    where
      same : x ≡ y
      same = cc

  pub write_captured-events :
      (name : Text) (value : Option (List ℕ)) (x y : JsonWriter)
      → write_captured w v failure name value x ≡ ok y
      → l.events y ≡ l.events x ++ captured_events w v name value
  write_captured-events name none x y h = unwritten x y h
  write_captured-events name (some value) x y h = write_captured_member-events name value x y h

  force_usage_option-IsForced :
      (objects : Objects v) (stream_options : Option (List ℕ)) (forced : List ℕ)
      → force_usage_option w v failure stream_options ≡ ok forced
      → IsForced w v objects true forced
  unfolding force_usage_option
  force_usage_option-IsForced objects stream_options forced h =
      let (value, _, h1) = >>=-ok (control_value w v failure stream_options) _ forced h in
      let (options, ei, h2) =
        >>=-ok
          (ok_or
            (v.insert (codes "include_usage") (v.bool true)
              (if v.is_null value then v.empty_object else value))
            invalid_stream_options)
          _ forced h1 in
      (
        options,
        ok_or-ok _ _ forced h2,
        objects.inserted (codes "include_usage") (v.bool true) _ options (ok_or-ok _ _ options ei),
      )

  pub write_stream_options-events :
      (objects : Objects v) (streaming : Bool) (stream_options : Option (List ℕ)) (x y : JsonWriter)
      → write_stream_options w v failure streaming stream_options x ≡ ok y
      → (forced : List ℕ) × IsForced w v objects streaming forced
        × (l.events y ≡ l.events x ++ options_events w v streaming stream_options forced)
  unfolding write_stream_options
  write_stream_options-events objects true stream_options x y h =
      let (forced, ef, h1) = >>=-ok (force_usage_option w v failure stream_options) _ y h in
      (
        forced,
        force_usage_option-IsForced objects stream_options forced ef,
        write_captured_member-events (codes "stream_options") forced x y h1,
      )
  write_stream_options-events objects false stream_options x y h =
      ([], tt, write_captured-events (codes "stream_options") stream_options x y h)

  pub write_limit-events :
      (limit : ℕ) (completion tokens : Option (List ℕ)) (x y : JsonWriter)
      → write_limit w v failure limit completion tokens x ≡ ok y
      → l.events y ≡ l.events x ++ limit_events w v limit completion tokens
  unfolding write_limit
  write_limit-events limit (some value) tokens x y h =
      write_captured_member-events (codes "max_completion_tokens") value x y h
  write_limit-events limit none (some value) x y h = unwritten x y h
  write_limit-events limit none none x y h =
      let (a, ea, h1) =
        >>=-ok (map_err output_failed (w.name (codes "max_completion_tokens") x)) _ y h in
      l.after_number limit a y (map_err-ok output_failed _ y h1)
      ∙ ap (λ n. n ++ numbered limit ∷ [])
          (l.after_name (codes "max_completion_tokens") x a (map_err-ok output_failed _ a ea))
      ∙ append_assoc (l.events x) (named (codes "max_completion_tokens") ∷ []) (numbered limit ∷ [])

  pub is_streaming-eq :
      (stream_value : Option (List ℕ))
      → is_streaming w v failure stream_value ≡ asks_for_stream w v stream_value
  unfolding is_streaming asks_for_stream
  is_streaming-eq none = refl
  is_streaming-eq (some bytes) = elim (Option-cases (v.from_slice bytes)) [
    | inl q ↦ rw (q, asks_for_stream) refl
    | inr (value, q) ↦ rw (q, asks_for_stream) (test (v.as_bool value))
  ]
    where
      test : (b : Option Bool) → Transform.is_true w v failure b ≡ is_true w v b
      test none = refl
      test (some true) = refl
      test (some false) = refl

  -- A limit that is parsed is the client's number, and positive.
  parsed :
      (value : List ℕ) (field : Text) (n : ℕ)
      → parse_positive_token_limit w v failure value field ≡ ok n
      → (bind_option (v.from_slice value) v.as_u64 ≡ some n) × (0 < n)
  unfolding parse_positive_token_limit
  parsed value field n h = found (bind_option (v.from_slice value) v.as_u64) (ok_or-ok _ _ n h)
    where
      found : (o : Option ℕ) → positive w v failure o ≡ some n → (o ≡ some n) × (0 < n)
      found none e = cc
      found (some m) e = elim (Bool-cases (ltb 0 m)) [
        | inl q ↦ let f = (rw q at e) in (f, positive_number m f q)
        | inr q ↦ absurd (never (rw q at e))
      ]
        where
          never : Path (Option ℕ) none (some n) → ⊥
          never f = cc

          positive_number : (m : ℕ) → Path (Option ℕ) (some m) (some n) → ltb 0 m ≡ true → 0 < n
          positive_number m f q = ground arith

  pub output_limit-IsLimit :
      (default : ℕ) (completion tokens : Option (List ℕ)) (n : ℕ)
      → 0 < default
      → output_limit w v failure default completion tokens ≡ ok n
      → IsLimit w v default completion tokens n × (0 < n)
  unfolding output_limit
  output_limit-IsLimit default (some value) tokens n p h =
      parsed value (codes "max_completion_tokens") n h
  output_limit-IsLimit default none (some value) n p h = parsed value (codes "max_tokens") n h
  output_limit-IsLimit default none none n p h = let e : default ≡ n = cc in (e, omega arith)

  -- What is captured are the bytes that are held back.
  captured_lem :
      (found : Option (List ℕ)) (value : Json) (field : Text) (captured : List ℕ)
      → capture_once w v failure found value field ≡ ok captured
      → held_back w v value ≡ captured
  unfolding capture_control_value
  captured_lem none value field captured h = held _ _ _ h
    where
      held :
          (exceeded : Bool) (transferred : Result TransferError (Unit {0})) (bytes : List ℕ)
          → Path
              (Outcome (List ℕ))
              (if exceeded
                then err (control_field_too_large field)
                else (map_err map_transfer_error transferred >> ok bytes))
              (ok captured)
          → bytes ≡ captured
      held true transferred bytes e = cc
      held false (ok u) bytes e = cc
      held false (err x) bytes e = cc
  captured_lem (some bytes) value field captured h = cc

  -- A control that is captured leaves the writer.
  captured-same :
      (found : Option (List ℕ)) (value : Json) (field : Text) (c : List ℕ → Controls)
      (after : Controls) (x y : JsonWriter)
      → Path
          (Outcome (Controls × JsonWriter))
          (capture_once w v failure found value field >>= λ captured. ok (c captured, x))
          (ok (after, y))
      → (l.events y ≡ l.events x ++ []) × (after ≡ c (held_back w v value))
  captured-same found value field c after x y h =
      let (captured, ec, e) =
        >>=-ok (capture_once w v failure found value field) (λ captured. ok (c captured, x))
          (after, y) h in
      let (same_writer, same_controls) = same captured e in
      (
        ap l.events (sym same_writer) ∙ sym (append-nil (l.events x)),
        sym same_controls ∙ ap c (sym (captured_lem found value field captured ec)),
      )
    where
      same :
          (captured : List ℕ)
          → Path (Outcome (Controls × JsonWriter)) (ok (c captured, x)) (ok (after, y))
          → (x ≡ y) × (c captured ≡ after)
      same captured e = (cc, cc)

  passed-events :
      (name : Text) (value : Json) (c after : Controls) (x y : JsonWriter)
      → Path
          (Outcome (Controls × JsonWriter))
          (map_err output_failed (w.name name x) >>= λ writer.
            map_err map_transfer_error (w.transfer_to value writer) >>= λ writer. ok (c, writer))
          (ok (after, y))
      → (l.events y ≡ l.events x ++ named name ∷ passed value ∷ []) × (after ≡ c)
  passed-events name value c after x y h =
      let (a, ea, h1) = >>=-ok (map_err output_failed (w.name name x)) _ (after, y) h in
      let (b, eb, h2) =
        >>=-ok (map_err map_transfer_error (w.transfer_to value a)) _ (after, y) h1 in
      let (same_writer, same_controls) = same b h2 in
      (
        ap l.events (sym same_writer)
            ∙ member_written name value x a b (map_err-ok output_failed _ a ea)
                (map_err-ok map_transfer_error _ b eb),
        sym same_controls,
      )
    where
      same :
          (b : JsonWriter)
          → Path (Outcome (Controls × JsonWriter)) (ok (c, b)) (ok (after, y))
          → (b ≡ y) × (c ≡ after)
      same b e = (cc, cc)

  pub transform_member-events :
      (name : Text) (value : Json) (c after : Controls) (x y : JsonWriter)
      → transform_member w v failure name value (c, x) ≡ ok (after, y)
      → (l.events y ≡ l.events x ++ if_control (is_control name) name value)
        × (after ≡ noted w v name value c)
  unfolding transform_member
  transform_member-events name value c after x y h =
      elim (Bool-cases (text_eq name (codes "stream"))) [
        | inl q ↦ rw q (captured-same _ _ _ _ after x y (rw (q, transform_member) at h))
        | inr q ↦ elim (Bool-cases (text_eq name (codes "stream_options"))) [
          | inl r ↦ rw (q, r) (captured-same _ _ _ _ after x y (rw (q, r, transform_member) at h))
          | inr r ↦ elim (Bool-cases (text_eq name (codes "max_completion_tokens"))) [
            | inl s ↦
                rw (q, r, s) (captured-same _ _ _ _ after x y (rw (q, r, s, transform_member) at h))
            | inr s ↦ elim (Bool-cases (text_eq name (codes "max_tokens"))) [
              | inl t ↦
                  rw (q, r, s, t)
                    (captured-same _ _ _ _ after x y (rw (q, r, s, t, transform_member) at h))
              | inr t ↦
                  rw (q, r, s, t)
                    (passed-events name value c after x y (rw (q, r, s, t, transform_member) at h))
            ]
          ]
        ]
      ]
