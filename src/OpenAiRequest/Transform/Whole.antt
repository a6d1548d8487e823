-- ===== src/OpenAiRequest/Transform/Whole.antt =====
-- The rewriting of a request as a whole.
use internal_ai_gateway.Base.{
  ℕ, ◌<◌, ◌≡◌, refl, sym, ap, subst, ◌∙◌, inl, inr, Bool, true, false, List, ◌∷◌, ◌++◌,
  append_assoc, append-nil, Option, Text, codes, if◌then◌else◌, ok, err, map_err, ◌>>◌, >>=-ok,
  map_err-ok, Result-cases,
}
use internal_ai_gateway.Documents.{
  Json, object, array, string, number, bool, null, malformed, Members, member, end_object,
  broken_object, Document,
}
use internal_ai_gateway.OpenAiRequest.{
  IoError, OpenAiRequestTransformError, invalid_json, output_failed,
}
use internal_ai_gateway.OpenAiRequest.Transform.{
  Writing, Values, Controls, OpenAiRequestMetadata, Outcome, transform_member, transform_members,
  write_captured, is_streaming, write_stream_options, output_limit, write_limit, write_controls,
  transform_json, no_controls, begin,
}
use internal_ai_gateway.OpenAiRequest.Transform.Events.{
  Event, named, passed, Log, Objects, is_control, other_events, if_control, controls_of,
  asks_for_stream, captured_events, options_events, limit_events, control_events, IsForced, IsLimit,
}
use internal_ai_gateway.OpenAiRequest.Transform.Laws.{
  write_captured-events, write_stream_options-events, write_limit-events, is_streaming-eq,
  output_limit-IsLimit, transform_member-events,
}

put :
    (test : Bool) (name : Text) (value : Json) (events : List Event)
    → if_control test name value ++ events
      ≡ (if test then events else named name ∷ passed value ∷ events)
put true name value events = refl
put false name value events = refl

behind : (x y z one two : List Event) → y ≡ x ++ one → z ≡ y ++ two → z ≡ x ++ (one ++ two)
behind x y z one two e f = f ∙ ap (λ n. n ++ two) e ∙ append_assoc x one two

-- Four pieces behind each other.
in_turn :
    (x a b d e : List Event) (one two three four : List Event)
    → a ≡ x ++ one
    → b ≡ a ++ two
    → d ≡ b ++ three
    → e ≡ d ++ four
    → e ≡ x ++ (one ++ two ++ three ++ four)
in_turn x a b d e one two three four ea eb ed ee =
    behind x d e (one ++ two ++ three) four
      (behind x b d (one ++ two) three (behind x a b one two ea eb) ed) ee

module _ (w : Writing) (v : Values) (failure : Option IoError) (l : Log w) where
  open w use {JsonWriter}

  transform_members-events :
      (members : Members) (c after : Controls) (x y : JsonWriter)
      → transform_members w v failure members (c, x) ≡ ok (after, y)
      → (l.events y ≡ l.events x ++ other_events members) × (after ≡ controls_of w v members c)
  unfolding transform_members other_events controls_of
  transform_members-events end_object c after x y h =
      (ap l.events (sym same) ∙ sym (append-nil (l.events x)), same_controls)
    where
      same : x ≡ y
      same = cc

      same_controls : after ≡ c
      same_controls = cc
  transform_members-events broken_object c after x y h = cc
  transform_members-events (member name value rest) c after x y h =
      elim (Result-cases (transform_member w v failure name value (c, x))) [
        | inr (e, q) ↦ absurd (never (rw (q, transform_members) at h))
        | inl ((d, z), q) ↦
            let (events, noted_one) = transform_member-events w v failure l name value c d x z q in
            let (more, noted_rest) =
              transform_members-events rest d after z y (rw (q, transform_members) at h) in
            (
              more
                  ∙ ap (λ n. n ++ other_events rest) events
                  ∙ append_assoc (l.events x) (if_control (is_control name) name value)
                      (other_events rest)
                  ∙ ap (λ n. l.events x ++ n)
                      (put (is_control name) name value (other_events rest)),
              noted_rest ∙ ap (controls_of w v rest) noted_one,
            )
      ]
    where
      never :
          {e : OpenAiRequestTransformError}
          → Path (Outcome (Controls × JsonWriter)) (err e) (ok (after, y))
          → ⊥
      never e = cc

  ended_events :
      (e f g y : JsonWriter)
      → w.end_object e ≡ ok f
      → w.finish f ≡ ok g
      → g ≡ y
      → l.events y ≡ l.events e
  ended_events e f g y ef eg same =
      ap l.events (sym same) ∙ l.after_finish f g eg ∙ l.after_end e f ef

  -- What the writing of the controls adds.
  write_controls-events :
      (objects : Objects v) (default : ℕ) (c : Controls) (x y : JsonWriter)
      (metadata : OpenAiRequestMetadata)
      → 0 < default
      → write_controls w v failure default c x ≡ ok (metadata, y)
      → (forced : List ℕ) × IsForced w v objects metadata.streaming forced
        × (l.events y
            ≡ l.events x
              ++ control_events w v metadata.max_output_tokens metadata.streaming forced c)
        × (metadata.streaming ≡ is_streaming w v failure c.stream_value)
        × IsLimit w v default c.max_completion_tokens c.max_tokens metadata.max_output_tokens
        × (0 < metadata.max_output_tokens)
  unfolding write_controls
  write_controls-events objects default c x y metadata p h =
      let streaming = is_streaming w v failure c.stream_value in
      let (a, ea, h1) =
        >>=-ok (write_captured w v failure (codes "stream") c.stream_value x) _ (metadata, y) h in
      let (b, eb, h2) =
        >>=-ok (write_stream_options w v failure streaming c.stream_options a) _ (metadata, y) h1 in
      let (n, en, h3) =
        >>=-ok (output_limit w v failure default c.max_completion_tokens c.max_tokens) _
          (metadata, y) h2 in
      let (d, ed, h4) =
        >>=-ok (write_limit w v failure n c.max_completion_tokens c.max_tokens b) _ (metadata, y)
          h3 in
      let (e, ee, h5) =
        >>=-ok (write_captured w v failure (codes "max_tokens") c.max_tokens d) _ (metadata, y)
          h4 in
      let (f, ef, h6) = >>=-ok (map_err output_failed (w.end_object e)) _ (metadata, y) h5 in
      let (g, eg, h7) = >>=-ok (map_err output_failed (w.finish f)) _ (metadata, y) h6 in
      let (same, limit, stream) = answered n streaming g h7 in
      let one = write_captured-events w v failure l _ _ x a ea in
      let (forced, is_forced, two) =
        write_stream_options-events w v failure l objects streaming _ a b eb in
      let three = write_limit-events w v failure l n _ _ b d ed in
      let four = write_captured-events w v failure l _ _ d e ee in
      let (is_limit, positive) = output_limit-IsLimit w v failure l default _ _ n p en in
      let last : l.events y ≡ l.events e =
        ended_events e f g y (map_err-ok output_failed _ f ef) (map_err-ok output_failed _ g eg)
          same in
      (
        forced,
        subst (λ t. IsForced w v objects t forced) (sym stream) is_forced,
        last
            ∙ in_turn (l.events x) (l.events a) (l.events b) (l.events d) (l.events e)
                (captured_events w v (codes "stream") c.stream_value)
                (options_events w v streaming c.stream_options forced)
                (limit_events w v n c.max_completion_tokens c.max_tokens)
                (captured_events w v (codes "max_tokens") c.max_tokens) one two three four
            ∙ ap (λ m. l.events x ++ control_events w v m streaming forced c) limit
            ∙ ap (λ t. l.events x ++ control_events w v metadata.max_output_tokens t forced c)
                (sym stream),
        stream,
        subst (λ m. IsLimit w v default c.max_completion_tokens c.max_tokens m) limit is_limit,
        subst (λ m. 0 < m) limit positive,
      )
    where
      answered :
          (n : ℕ) (streaming : Bool) (g : JsonWriter)
          → Path
              (Outcome (OpenAiRequestMetadata × JsonWriter))
              (ok (record { max_output_tokens = n; streaming = streaming }, g))
              (ok (metadata, y))
          → (g ≡ y) × (n ≡ metadata.max_output_tokens) × (metadata.streaming ≡ streaming)
      answered n streaming g e = (cc, cc, cc)

  begun-eq :
      (value : Json) (members : Members)
      → begin w v failure value ≡ ok members
      → value ≡ object members
  begun-eq (object ms) members h = cc
  begun-eq (array elements) members h = cc
  begun-eq (string text) members h = cc
  begun-eq (number n) members h = cc
  begun-eq (bool b) members h = cc
  begun-eq null members h = cc
  begun-eq malformed members h = cc

  at_the_end :
      (ends : Bool) (default : ℕ) (c : Controls) (b : JsonWriter) (metadata : OpenAiRequestMetadata)
      (y : JsonWriter)
      → Path
          (Outcome (OpenAiRequestMetadata × JsonWriter))
          ((if ends then ok tt else err (invalid_json failure))
            >> write_controls w v failure default c b)
          (ok (metadata, y))
      → write_controls w v failure default c b ≡ ok (metadata, y)
  at_the_end true default c b metadata y h = h
  at_the_end false default c b metadata y h = absurd (never h)
    where
      never :
          Path
            (Outcome (OpenAiRequestMetadata × JsonWriter))
            (err (invalid_json failure))
            (ok (metadata, y))
          → ⊥
      never e = cc

  pub transform_json_ok :
      (objects : Objects v) (document : Document) (x y : JsonWriter) (default : ℕ)
      (metadata : OpenAiRequestMetadata)
      → 0 < default
      → transform_json w v failure document x default ≡ ok (metadata, y)
      → (members : Members) × (forced : List ℕ) × (document.value ≡ object members)
        × (let c = controls_of w v members (no_controls w v failure) in
            (metadata.streaming ≡ asks_for_stream w v c.stream_value)
            × IsForced w v objects metadata.streaming forced
            × IsLimit w v default c.max_completion_tokens c.max_tokens metadata.max_output_tokens
            × (0 < metadata.max_output_tokens)
            × (l.events y
                ≡ l.events x
                  ++ (other_events members
                      ++ control_events w v metadata.max_output_tokens metadata.streaming forced
                          c)))
  unfolding transform_json
  transform_json_ok objects document x y default metadata p h =
      let (members, em, h1) = >>=-ok (begin w v failure document.value) _ (metadata, y) h in
      let (a, ea, h2) = >>=-ok (map_err output_failed (w.begin_object x)) _ (metadata, y) h1 in
      let ((c, b), eb, h3) =
        >>=-ok (transform_members w v failure members (no_controls w v failure, a)) _ (metadata, y)
          h2 in
      let h4 = at_the_end document.ends default c b metadata y h3 in
      let (before, ec) = transform_members-events members (no_controls w v failure) c a b eb in
      let (forced, is_forced, events, streaming, is_limit, positive) =
        write_controls-events objects default c b y metadata p h4 in
      (
        members,
        forced,
        begun-eq document.value members em,
        (
          streaming
              ∙ is_streaming-eq w v failure l c.stream_value
              ∙ ap (λ k. asks_for_stream w v k.stream_value) ec,
          is_forced,
          subst
              (λ k.
                IsLimit w v default k.max_completion_tokens k.max_tokens metadata.max_output_tokens)
              ec is_limit,
          positive,
          behind (l.events x) (l.events b) (l.events y) (other_events members)
                (control_events w v metadata.max_output_tokens metadata.streaming forced c)
                (before
                  ∙ ap (λ n. n ++ other_events members)
                      (l.after_begin x a (map_err-ok output_failed _ a ea)))
                events
              ∙ ap
                  (λ k.
                    l.events x
                    ++ (other_events members
                        ++ control_events w v metadata.max_output_tokens metadata.streaming forced
                            k))
                  ec,
        ),
      )
