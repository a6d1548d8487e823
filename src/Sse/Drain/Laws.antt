-- ===== src/Sse/Drain/Laws.antt =====
-- The loop over the events ends with the last of them, whatever the chunks were.
use internal_ai_gateway.Base.{
  ℕ, zero, suc, ◌+◌, ◌≤◌, ◌<◌, ◌≡◌, refl, sym, ap, ◌∙◌, List, [], ◌∷◌, ◌++◌, All, subst, Option,
  none, some, length, length-append, length-drop, append_assoc, append-nil, arith, Option-cases,
  inl, inr,
}
use internal_ai_gateway.Sse.{
  position, event_separators, with_found, first_separator, take_next_event,
}
use internal_ai_gateway.Sse.Chunks.{take_next_event-append}
use internal_ai_gateway.Sse.Drain.{drain, observe_chunk, observe_chunks, concat}

with_found-positive :
    (at : Option ℕ) (k : ℕ) (rest : Option (ℕ × ℕ)) (i n : ℕ)
    → 0 < k
    → ((j m : ℕ) → rest ≡ some (j, m) → 0 < m)
    → with_found at k rest ≡ some (i, n)
    → 0 < n
with_found-positive none k rest i n p q h = q i n h
with_found-positive (some j) k none i n p q h = ground arith
with_found-positive (some j) k (some (l, m)) i n p q h = let w = q l m refl in ground arith

first_separator-positive :
    (ss : List (List ℕ)) (b : List ℕ) (i n : ℕ)
    → All (λ s. 0 < length s) ss
    → first_separator ss b ≡ some (i, n)
    → 0 < n
unfolding first_separator
first_separator-positive [] b i n l h = absurd (never h)
  where
    never : Path (Option (ℕ × ℕ)) none (some (i, n)) → ⊥
    never e = cc
first_separator-positive (s ∷ ss) b i n l h =
    with_found-positive (position s b) (length s) (first_separator ss b) i n l.0
      (λ j m q. first_separator-positive ss b j m l.1 q) h

take_next_event-nil : take_next_event [] ≡ none
unfolding take_next_event first_separator position
take_next_event-nil = refl

-- Taking an event shortens the buffer.
take_next_event-shorter :
    (buffer event rest : List ℕ)
    → take_next_event buffer ≡ some (event, rest)
    → length rest < length buffer
unfolding take_next_event
take_next_event-shorter [] event rest h = absurd (never (sym take_next_event-nil ∙ h))
  where
    never : Path (Option (List ℕ × List ℕ)) none (some (event, rest)) → ⊥
    never e = cc
take_next_event-shorter (x ∷ buffer) event rest h =
    elim (Option-cases (first_separator event_separators (x ∷ buffer))) [
      | inl q ↦ absurd (never (rw q at h))
      | inr ((i, n), q) ↦
          let w =
            first_separator-positive event_separators (x ∷ buffer) i n
              (omega arith, (omega arith, (omega arith, (omega arith, (omega arith, tt))))) q in
          let e = the_rest (rw q at h) in
          subst (λ r. length r < length (x ∷ buffer)) e
            (omega (arith, length-drop (i + n) (x ∷ buffer)))
    ]
  where
    never : Path (Option (List ℕ × List ℕ)) none (some (event, rest)) → ⊥
    never e = cc

    the_rest :
        {e r : List ℕ}
        → Path (Option (List ℕ × List ℕ)) (some (e, r)) (some (event, rest))
        → r ≡ rest
    the_rest e = cc

nothing-to-take : (buffer : List ℕ) → length buffer ≤ 0 → take_next_event buffer ≡ none
nothing-to-take [] h = take_next_event-nil
nothing-to-take (x ∷ buffer) h = absurd (omega arith)

module _ {U : Type 0} (observe_event : U → List ℕ → U) where
  -- The loop ends because no event is left, not because its fuel is.
  pub drain_complete :
      (fuel : ℕ) (usage : U) (buffer : List ℕ)
      → length buffer ≤ fuel
      → take_next_event (drain observe_event fuel usage buffer).1 ≡ none
  unfolding drain
  drain_complete zero usage buffer h = nothing-to-take buffer h
  drain_complete (suc fuel) usage buffer h = elim (Option-cases (take_next_event buffer)) [
    | inl q ↦ rw (q, drain) q
    | inr ((event, rest), q) ↦
        rw (q, drain)
          (drain_complete fuel (observe_event usage event) rest
            (omega (arith, h, take_next_event-shorter buffer event rest q)))
  ]

  pub observe_chunk_complete :
      (usage : U) (buffer chunk : List ℕ)
      → take_next_event (observe_chunk observe_event (usage, buffer) chunk).1 ≡ none
  unfolding observe_chunk
  observe_chunk_complete usage buffer chunk =
      drain_complete (length (buffer ++ chunk)) usage (buffer ++ chunk) (omega arith)

  drain-more :
      (fuel more : ℕ) (usage : U) (buffer : List ℕ)
      → length buffer ≤ fuel
      → length buffer ≤ more
      → drain observe_event fuel usage buffer ≡ drain observe_event more usage buffer
  unfolding drain
  drain-more zero zero usage buffer h k = refl
  drain-more zero (suc more) usage buffer h k = rw (nothing-to-take buffer h, drain) refl
  drain-more (suc fuel) zero usage buffer h k = rw (nothing-to-take buffer k, drain) refl
  drain-more (suc fuel) (suc more) usage buffer h k = elim (Option-cases (take_next_event buffer)) [
    | inl q ↦ rw (q, drain) refl
    | inr ((event, rest), q) ↦
        let w = take_next_event-shorter buffer event rest q in
        rw (q, drain)
          (drain-more fuel more (observe_event usage event) rest (omega arith) (omega arith))
  ]

  same_fuel :
      (usage : U) (buffer more : List ℕ) (n m : ℕ)
      → length buffer + length more ≤ n
      → length buffer + length more ≤ m
      → drain observe_event n usage (buffer ++ more) ≡ drain observe_event m usage (buffer ++ more)
  same_fuel usage buffer more n m k l =
      let e = length-append buffer more in
      drain-more n m usage (buffer ++ more) (omega arith) (omega arith)

  -- What arrives later can be drained later.
  drain-append :
      (fuel : ℕ) (usage : U) (buffer more : List ℕ) (n m : ℕ)
      → length buffer ≤ fuel
      → length buffer + length more ≤ n
      → length buffer + length more ≤ m
      → drain observe_event n usage (buffer ++ more)
        ≡ drain observe_event m
            (drain observe_event fuel usage buffer).0
            ((drain observe_event fuel usage buffer).1 ++ more)
  unfolding drain
  drain-append zero usage buffer more n m h k l = same_fuel usage buffer more n m k l
  drain-append (suc fuel) usage buffer more zero m h k l =
      elim (Option-cases (take_next_event buffer)) [
        | inl q ↦ rw (q, drain) (same_fuel usage buffer more 0 m k l)
        | inr ((event, rest), q) ↦
            let w = take_next_event-shorter buffer event rest q in absurd (omega arith)
      ]
  drain-append (suc fuel) usage buffer more (suc n) m h k l =
      elim (Option-cases (take_next_event buffer)) [
        | inl q ↦ rw (q, drain) (same_fuel usage buffer more (suc n) m k l)
        | inr ((event, rest), q) ↦
            let w = take_next_event-shorter buffer event rest q in
            rw (q, take_next_event-append buffer more event rest q, drain)
              (drain-append fuel (observe_event usage event) rest more n m (omega arith)
                (omega arith) (omega arith))
      ]

  drain-none :
      (n : ℕ) (usage : U) (buffer : List ℕ)
      → take_next_event buffer ≡ none
      → drain observe_event n usage buffer ≡ (usage, buffer)
  unfolding drain
  drain-none zero usage buffer h = refl
  drain-none (suc n) usage buffer h = rw (h, drain) refl

  drain-length :
      (n : ℕ) (usage : U) (buffer : List ℕ)
      → length (drain observe_event n usage buffer).1 ≤ length buffer
  unfolding drain
  drain-length zero usage buffer = omega arith
  drain-length (suc n) usage buffer = elim (Option-cases (take_next_event buffer)) [
    | inl q ↦ rw (q, drain) (omega arith)
    | inr ((event, rest), q) ↦
        let w = take_next_event-shorter buffer event rest q in
        let v = drain-length n (observe_event usage event) rest in rw (q, drain) (omega arith)
  ]

  -- Draining once after two chunks.
  twice :
      (usage : U) (buffer chunk more : List ℕ)
      → observe_chunk observe_event (observe_chunk observe_event (usage, buffer) chunk) more
        ≡ observe_chunk observe_event (usage, buffer) (chunk ++ more)
  unfolding observe_chunk
  twice usage buffer chunk more =
      let all = buffer ++ chunk in
      let fuel = length (all ++ more) in
      let left = drain observe_event (length all) usage all in
      let e = length-append all more in
      let f = length-append left.1 more in
      let v = drain-length (length all) usage all in
      drain-more (length (left.1 ++ more)) fuel left.0 (left.1 ++ more) (omega arith) (omega arith)
      ∙ sym (
          drain-append (length all) usage all more fuel fuel (omega arith) (omega arith)
            (omega arith))
      ∙ ap (λ b. drain observe_event (length b) usage b) (append_assoc buffer chunk more)

  -- Draining after each chunk leaves what draining once after all of them leaves.
  observe_chunks-once :
      (usage : U) (buffer : List ℕ) (chunks : List (List ℕ))
      → take_next_event buffer ≡ none
      → observe_chunks observe_event (usage, buffer) chunks
        ≡ observe_chunk observe_event (usage, buffer) (concat chunks)
  unfolding observe_chunks observe_chunk concat
  observe_chunks-once usage buffer [] h = sym (
      ap (λ b. drain observe_event (length b) usage b) (append-nil buffer)
      ∙ drain-none (length buffer) usage buffer h)
  observe_chunks-once usage buffer (chunk ∷ chunks) h =
      let (u, b) = observe_chunk observe_event (usage, buffer) chunk in
      observe_chunks-once u b chunks (observe_chunk_complete usage buffer chunk)
      ∙ twice usage buffer chunk (concat chunks)

  -- What is observed of a stream, and the bytes that are left of it, do not depend on how its bytes are
  -- cut into chunks: two lists of chunks with the same bytes leave the same.
  pub observe_chunks-cut :
      (usage : U) (chunks others : List (List ℕ))
      → concat chunks ≡ concat others
      → observe_chunks observe_event (usage, []) chunks
        ≡ observe_chunks observe_event (usage, []) others
  observe_chunks-cut usage chunks others h =
      observe_chunks-once usage [] chunks take_next_event-nil
      ∙ ap (observe_chunk observe_event (usage, [])) h
      ∙ sym (observe_chunks-once usage [] others take_next_event-nil)
