-- ===== src/AnthropicRequest/Prepare.antt =====
-- services/proxy/src/anthropic_request.rs: `prepare_anthropic_request`. What the reader of the body gives is the
-- list of its reads, of which one may fail; a temporary file takes all that is written to it at once or
-- fails, at the position where it stands.
use internal_ai_gateway.Base.{
  ℕ, ◌+◌, ◌*◌, ◌≤◌, ◌≡◌, sym, ap, subst, ◌∙◌, append_assoc, append-nil, inl, inr, Bool, true, false,
  List, [], ◌∷◌, ◌++◌, length, length-append, drop, ltb, if◌then◌else◌, Result, ok, err, map_err,
  >>=-ok, map_err-ok, ◌>>=◌, Result-cases, Bool-cases, u64_max, saturating_add, arith,
}
use internal_ai_gateway.Documents.{Document}
use internal_ai_gateway.OpenAiRequest.{IoError, file_too_large}
use internal_ai_gateway.AnthropicRequest.Files.{Files, IsKept, at_the_end}
use internal_ai_gateway.AnthropicRequest.{
  AnthropicRequestError, AnthropicRequestMetadata, spool_failed, worker_stopped,
  max_spooled_request_bytes, image_input_token_reserve, inspect_request, budget_of,
}

pub record PreparedAnthropicRequest : Type 0 where
  pub body : List ℕ
  pub streaming : Bool
  pub token_budget : ℕ

budget_ok :
    (body_bytes : ℕ) (metadata : AnthropicRequestMetadata) (budget : ℕ)
    → budget_of body_bytes metadata ≡ ok budget
    → (budget
        ≡ body_bytes + metadata.image_inputs * image_input_token_reserve + metadata.max_tokens)
      × (budget ≤ u64_max)
unfolding budget_of
budget_ok body_bytes metadata budget h = ground arith

unpacked :
    (x y : PreparedAnthropicRequest)
    → Path (Result AnthropicRequestError PreparedAnthropicRequest) (ok x) (ok y)
    → x ≡ y
unpacked x y e = cc

module _ (files : Files) (parse : List ℕ → Document) where
  open files use {File}

  -- `LimitedSpoolWriter::write`, with the bytes written before.
  unfoldable pub write : List ℕ → File × ℕ → Result IoError (File × ℕ)
  write input (file, written) =
      if ltb max_spooled_request_bytes (saturating_add written (length input))
      then err file_too_large
      else (do file ← files.write input file; ok (file, saturating_add written (length input)))

  -- `io::copy`.
  unfoldable pub copy : List (Result IoError (List ℕ)) → File × ℕ → Result IoError (File × ℕ)
  unfolding write
  copy [] writer = ok writer
  copy (err e ∷ reads) writer = err e
  copy (ok input ∷ reads) writer = elim (write input writer) [
    | ok next ↦ copy reads next
    | err e ↦ err e
  ]

  unfoldable pub spool : List (Result IoError (List ℕ)) → Result IoError (File × ℕ)
  unfolding copy
  spool reads = do
    file ← files.tempfile
    (file, written) ← copy reads (file, 0)
    file ← files.flush file
    file ← files.rewind file
    ok (file, written)

  -- `worker_stops` says whether the blocking task is lost.
  unfoldable pub prepare_anthropic_request :
      Bool → List (Result IoError (List ℕ)) → Result AnthropicRequestError PreparedAnthropicRequest
  unfolding spool inspect_request budget_of
  prepare_anthropic_request worker_stops reads = if worker_stops then err worker_stopped else (do
    (file, body_bytes) ← map_err spool_failed (spool reads)
    let (bytes, file) = files.read file
    metadata ← inspect_request (parse bytes)
    file ← map_err spool_failed (files.rewind file)
    token_budget ← budget_of body_bytes metadata
    ok (record {
      body = (files.read file).0;
      streaming = metadata.streaming;
      token_budget = token_budget;
    }))

  -- The bytes of the reads.
  unfoldable pub bytes_of : List (Result IoError (List ℕ)) → List ℕ
  bytes_of [] = []
  bytes_of (err e ∷ reads) = []
  bytes_of (ok input ∷ reads) = input ++ bytes_of reads

  module _ (kept : IsKept files) where
    pair-eq :
        (file after : File) (n m : ℕ)
        → Path (Result IoError (File × ℕ)) (ok (file, n)) (ok (after, m))
        → (file ≡ after) × (n ≡ m)
    pair-eq file after n m e = (cc, cc)

    err≢ok : (x : IoError) (w : File × ℕ) → Path (Result IoError (File × ℕ)) (err x) (ok w) → ⊥
    err≢ok x w e = cc

    fits :
        (written n : ℕ)
        → ltb max_spooled_request_bytes (saturating_add written n) ≡ false
        → (saturating_add written n ≡ written + n) × (written + n ≤ max_spooled_request_bytes)
    fits written n h = ground arith

    write_ok :
        (input : List ℕ) (file next : File) (written n : ℕ)
        → kept.position file ≡ length (kept.contents file)
        → write input (file, written) ≡ ok (next, n)
        → (kept.contents next ≡ kept.contents file ++ input)
          × (kept.position next ≡ length (kept.contents next))
          × (n ≡ written + length input)
          × (n ≤ max_spooled_request_bytes)
    unfolding write
    write_ok input file next written n at_end h =
        elim (Bool-cases (ltb max_spooled_request_bytes (saturating_add written (length input)))) [
          | inl q ↦ absurd (err≢ok file_too_large (next, n) (rw (q, write) at h))
          | inr q ↦ elim (Result-cases (files.write input file)) [
            | inr (x, r) ↦ absurd (err≢ok x (next, n) (rw (q, r, write, ◌>>=◌) at h))
            | inl (g, r) ↦
                let (eg, en) =
                  pair-eq g next (saturating_add written (length input)) n
                    (rw (q, r, write, ◌>>=◌) at h) in
                let (es, l) = fits written (length input) q in
                let (c, p) = kept.written input file g r in
                let whole =
                  ap kept.contents (sym eg)
                  ∙ c
                  ∙ at_the_end (kept.position file) (length input) (kept.contents file) input
                      at_end in
                (
                  whole,
                  ap kept.position (sym eg)
                      ∙ p
                      ∙ ap (λ x. x + length input) at_end
                      ∙ sym (length-append (kept.contents file) input)
                      ∙ ap length (sym whole),
                  sym en ∙ es,
                  omega (arith, en, es, l),
                )
          ]
        ]

    -- A copy that ends well has kept all the bytes and counted them, within the limit.
    copy_ok :
        (reads : List (Result IoError (List ℕ))) (file after : File) (written total : ℕ)
        → written ≤ max_spooled_request_bytes
        → written ≡ length (kept.contents file)
        → kept.position file ≡ length (kept.contents file)
        → copy reads (file, written) ≡ ok (after, total)
        → (kept.contents after ≡ kept.contents file ++ bytes_of reads)
          × (total ≡ length (kept.contents after))
          × (total ≤ max_spooled_request_bytes)
    unfolding copy bytes_of
    copy_ok [] file after written total l e at_end h =
        let (f, n) = pair-eq file after written total h in
        (
          ap kept.contents (sym f) ∙ sym (append-nil (kept.contents file)),
          sym n ∙ e ∙ ap (λ g. length (kept.contents g)) f,
          omega (arith, n, l),
        )
    copy_ok (err x ∷ reads) file after written total l e at_end h =
        absurd (err≢ok x (after, total) h)
    copy_ok (ok input ∷ reads) file after written total l e at_end h =
        elim (Result-cases (write input (file, written))) [
          | inr (x, q) ↦ absurd (err≢ok x (after, total) (rw (q, copy) at h))
          | inl ((next, n), q) ↦
              let (c, p, m, k) = write_ok input file next written n at_end q in
              let (d, t, v) =
                copy_ok reads next after n total k
                  (m
                    ∙ ap (λ x. x + length input) e
                    ∙ sym (length-append (kept.contents file) input)
                    ∙ ap length (sym c))
                  p (rw (q, copy) at h) in
              (
                d
                    ∙ ap (λ x. x ++ bytes_of reads) c
                    ∙ append_assoc (kept.contents file) input (bytes_of reads),
                t,
                v,
              )
        ]

    spool_ok :
        (reads : List (Result IoError (List ℕ))) (file : File) (total : ℕ)
        → spool reads ≡ ok (file, total)
        → (kept.contents file ≡ bytes_of reads)
          × (kept.position file ≡ 0)
          × (total ≡ length (bytes_of reads))
          × (total ≤ max_spooled_request_bytes)
    unfolding spool
    spool_ok reads file total h =
        let (f, ef, h1) = >>=-ok files.tempfile _ (file, total) h in
        let ((g, n), eg, h2) = >>=-ok (copy reads (f, 0)) _ (file, total) h1 in
        let (i, ei, h3) = >>=-ok (files.flush g) _ (file, total) h2 in
        let (j, ej, h4) = >>=-ok (files.rewind i) _ (file, total) h3 in
        let (e, at_start) = kept.empty f ef in
        let (c, t, l) =
          copy_ok reads f g 0 n (omega arith) (ap length (sym e)) (at_start ∙ ap length (sym e))
            eg in
        let (r, z) = kept.rewound i j ej in
        let (same, count) = pair-eq j file n total h4 in
        let d = c ∙ ap (λ x. x ++ bytes_of reads) e in
        (
          ap kept.contents (sym same) ∙ r ∙ (kept.flushed g i ei).0 ∙ d,
          ap kept.position (sym same) ∙ z,
          sym count ∙ t ∙ ap length d,
          omega (arith, count, l),
        )

    -- A prepared request has for its body the bytes that the client sent, each once and in their order, and
    -- the budget is their number, the reserve of each image, and the tokens that the request asks for at
    -- most. The body is within its limit, and the budget within 64 bits.
    pub prepare_anthropic_request_ok :
        (worker_stops : Bool) (reads : List (Result IoError (List ℕ)))
        (prepared : PreparedAnthropicRequest)
        → prepare_anthropic_request worker_stops reads ≡ ok prepared
        → (metadata : AnthropicRequestMetadata) × (inspect_request (parse (bytes_of reads))
            ≡ ok metadata)
          × (prepared.body ≡ bytes_of reads)
          × (prepared.streaming ≡ metadata.streaming)
          × (prepared.token_budget
              ≡ length (bytes_of reads)
                + metadata.image_inputs * image_input_token_reserve
                + metadata.max_tokens)
          × (length (bytes_of reads) ≤ max_spooled_request_bytes)
          × (prepared.token_budget ≤ u64_max)
    unfolding prepare_anthropic_request
    prepare_anthropic_request_ok true reads prepared h = absurd (never h)
      where
        never :
            Path
              (Result AnthropicRequestError PreparedAnthropicRequest)
              (err worker_stopped)
              (ok prepared)
            → ⊥
        never e = cc
    prepare_anthropic_request_ok false reads prepared h =
        let ((file, total), ef, h1) = >>=-ok (map_err spool_failed (spool reads)) _ prepared h in
        let (metadata, em, h2) =
          >>=-ok (inspect_request (parse (files.read file).0)) _ prepared h1 in
        let (again, ea, h3) =
          >>=-ok (map_err spool_failed (files.rewind (files.read file).1)) _ prepared h2 in
        let (budget, eb, h4) = >>=-ok (budget_of total metadata) _ prepared h3 in
        let (c, z, t, l) = spool_ok reads file total (map_err-ok spool_failed _ (file, total) ef) in
        let (b, u) = budget_ok total metadata budget eb in
        let e = unpacked _ prepared h4 in
        let (first, left) = kept.read_from file in
        let (same, start) =
          kept.rewound (files.read file).1 again (map_err-ok spool_failed _ again ea) in
        let inspected = first ∙ ap (λ n. drop n (kept.contents file)) z ∙ c in
        let passed_on =
          (kept.read_from again).0
          ∙ ap (λ n. drop n (kept.contents again)) start
          ∙ same
          ∙ left
          ∙ c in
        let bytes = ap length c in
        (
          metadata,
          subst (λ x. inspect_request (parse x) ≡ ok metadata) inspected em,
          ap (λ x. x.body) (sym e) ∙ passed_on,
          ap (λ x. x.streaming) (sym e),
          ap (λ x. x.token_budget) (sym e)
              ∙ b
              ∙ ap
                  (λ x. x + metadata.image_inputs * image_input_token_reserve + metadata.max_tokens)
                  t,
          omega (arith, t, l),
          subst (λ x. x ≤ u64_max) (ap (λ x. x.token_budget) e) u,
        )
