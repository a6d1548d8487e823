-- ===== src/Sse/Chunks.antt =====
-- Events do not depend on how the bytes of a stream are cut into chunks.
use internal_ai_gateway.Base.{
  ℕ, zero, suc, ◌+◌, ◌≤◌, ◌≡◌, refl, sym, ◌∙◌, true, List, [], ◌∷◌, ◌++◌, Option, none, some,
  length, take, drop, if◌then◌else◌, starts_with, map_option, arith, Bool-cases, Option-cases, inl,
  inr, ◌⊎◌,
}
use internal_ai_gateway.Sse.{
  position, event_separators, with_found, first_separator, take_next_event,
}

-- The separator at the head of a buffer.
abbrev separator_at : List (List ℕ) → List ℕ → Option ℕ
separator_at [] b = none
separator_at (s ∷ ss) b = if starts_with s b then some (length s) else separator_at ss b

-- The first separator by one pass over the buffer.
abbrev moved : ℕ × ℕ → ℕ × ℕ
moved (i, n) = (suc i, n)

abbrev at_head : Option ℕ → Option (ℕ × ℕ) → Option (ℕ × ℕ)
at_head none rest = map_option moved rest
at_head (some n) rest = some (0, n)

with_found-moved :
    (i : Option ℕ) (n : ℕ) (rest : Option (ℕ × ℕ))
    → with_found (map_option suc i) n (map_option moved rest)
      ≡ map_option moved (with_found i n rest)
with_found-moved none n rest = refl
with_found-moved (some i) n none = refl
with_found-moved (some i) n (some (j, m)) = ground arith

with_found-zero : (n : ℕ) (rest : Option (ℕ × ℕ)) → with_found (some 0) n rest ≡ some (0, n)
with_found-zero n none = refl
with_found-zero n (some (j, m)) = ground arith

later : (i : Option ℕ) (k l : ℕ) → with_found (map_option suc i) l (some (0, k)) ≡ some (0, k)
later none k l = refl
later (some i) k l = ground arith

first_separator-cons :
    (ss : List (List ℕ)) (x : ℕ) (b : List ℕ)
    → first_separator ss (x ∷ b) ≡ at_head (separator_at ss (x ∷ b)) (first_separator ss b)
unfolding first_separator position
first_separator-cons [] x b = refl
first_separator-cons (s ∷ ss) x b = elim (Bool-cases (starts_with s (x ∷ b))) [
  | inl e ↦ rw (e, with_found-zero (length s) (first_separator ss (x ∷ b))) refl
  | inr e ↦ rw (e, first_separator-cons ss x b) (step (separator_at ss (x ∷ b)))
]
  where
    step :
        (h : Option ℕ)
        → with_found (map_option suc (position s b)) (length s) (at_head h (first_separator ss b))
          ≡ at_head h (with_found (position s b) (length s) (first_separator ss b))
    step none = with_found-moved (position s b) (length s) (first_separator ss b)
    step (some n) = later (position s b) n (length s)

-- A separator that is there stays the first when more bytes come.
starts_with-append : (s b c : List ℕ) → starts_with s b ≡ true → starts_with s (b ++ c) ≡ true
unfolding starts_with
starts_with-append [] b c h = refl
starts_with-append (p ∷ s) [] c h = cc
starts_with-append (p ∷ s) (x ∷ b) c h = ground (arith, starts_with-append s b c)

abbrev at : List ℕ → Option ℕ
at b = separator_at event_separators b

one_byte : (x n : ℕ) → at (x ∷ []) ≡ some n → ⊥
unfolding starts_with
one_byte x n h = ground arith

head-stays : (b c : List ℕ) (n : ℕ) → at b ≡ some n → at (b ++ c) ≡ some n
unfolding starts_with
head-stays [] c n h = cc
head-stays (x ∷ []) c n h = absurd (one_byte x n h)
head-stays (x ∷ y ∷ []) c n h = ground arith
head-stays (x ∷ y ∷ z ∷ []) c n h = ground arith
head-stays (x ∷ y ∷ z ∷ w ∷ b) c n h = h

abbrev first : List ℕ → Option (ℕ × ℕ)
first b = first_separator event_separators b

first-cons : (x : ℕ) (b : List ℕ) → first (x ∷ b) ≡ at_head (at (x ∷ b)) (first b)
first-cons x b = first_separator-cons event_separators x b

first-nil : first [] ≡ none
unfolding first_separator position
first-nil = refl

first-one : (y : ℕ) → first (y ∷ []) ≡ none
unfolding first_separator position starts_with
first-one y = ground arith

-- A separator that is further on was complete, so that none begins before it when more bytes come.
head-stays_none :
    (x : ℕ) (b c : List ℕ) (p : ℕ × ℕ)
    → at (x ∷ b) ≡ none
    → first b ≡ some p
    → at (x ∷ b ++ c) ≡ none
unfolding starts_with
head-stays_none x [] c p h k = absurd (never (sym first-nil ∙ k))
  where
    never : none ≡ some p → ⊥
    never e = cc
head-stays_none x (y ∷ []) c p h k = absurd (never (sym (first-one y) ∙ k))
  where
    never : none ≡ some p → ⊥
    never e = cc
head-stays_none x (y ∷ z ∷ []) c p h k = two (Option-cases (at (y ∷ z ∷ [])))
  where
    never : none ≡ some p → ⊥
    never e = cc

    two :
        (at (y ∷ z ∷ []) ≡ none) ⊎ ((n : ℕ) × (at (y ∷ z ∷ []) ≡ some n))
        → at (x ∷ y ∷ z ∷ c) ≡ none
    two (inl e) = absurd (never (rw (first-cons y (z ∷ []), e, first-one z) at k))
    two (inr (n, e)) = ground arith
head-stays_none x (y ∷ z ∷ w ∷ b) c p h k = h

first-append : (b c : List ℕ) (p : ℕ × ℕ) → first b ≡ some p → first (b ++ c) ≡ some p
first-append [] c p h = absurd (never (sym first-nil ∙ h))
  where
    never : none ≡ some p → ⊥
    never e = cc
first-append (x ∷ b) c p h = elim (Option-cases (at (x ∷ b))) [
  | inl e ↦ elim (Option-cases (first b)) [
    | inl q ↦ absurd (never (rw (first-cons x b, e, q) at h))
    | inr (r, q) ↦
        rw (first-cons x (b ++ c), head-stays_none x b c r e q, first-append b c r q)
          (rw (first-cons x b, e, q) at h)
  ]
  | inr (n, e) ↦ rw (first-cons x (b ++ c), head-stays (x ∷ b) c n e) (rw (first-cons x b, e) at h)
]
  where
    never : none ≡ some p → ⊥
    never e = cc

abbrev the_pair : ℕ → ℕ → ℕ × ℕ
the_pair i n = (i, n)

-- The separator that is found stands in the buffer.
starts_with-length : (s b : List ℕ) → starts_with s b ≡ true → length s ≤ length b
unfolding starts_with
starts_with-length [] b h = omega arith
starts_with-length (p ∷ s) [] h = cc
starts_with-length (p ∷ s) (x ∷ b) h = ground (arith, starts_with-length s b)

separator_at-length :
    (ss : List (List ℕ)) (b : List ℕ) (n : ℕ) → separator_at ss b ≡ some n → n ≤ length b
separator_at-length [] b n h = cc
separator_at-length (s ∷ ss) b n h =
    ground (arith, starts_with-length s b, separator_at-length ss b n)

first-within : (b : List ℕ) (i n : ℕ) → first b ≡ some (i, n) → i + n ≤ length b
first-within [] i n h = absurd (never (sym first-nil ∙ h))
  where
    never : none ≡ some (the_pair i n) → ⊥
    never e = cc
first-within (x ∷ b) i n h = elim (Option-cases (at (x ∷ b))) [
  | inl e ↦ elim (Option-cases (first b)) [
    | inl q ↦ absurd (never (rw (first-cons x b, e, q) at h))
    | inr ((j, m), q) ↦ let w = first-within b j m q in further w (rw (first-cons x b, e, q) at h)
  ]
  | inr (m, e) ↦
      let w = separator_at-length event_separators (x ∷ b) m e in
      here w (rw (first-cons x b, e) at h)
]
  where
    never : none ≡ some (the_pair i n) → ⊥
    never e = cc

    further :
        {j m : ℕ}
        → j + m ≤ length b
        → some (the_pair (suc j) m) ≡ some (the_pair i n)
        → i + n ≤ length (x ∷ b)
    further w e = ground arith

    here :
        {m : ℕ}
        → m ≤ length (x ∷ b)
        → some (the_pair 0 m) ≡ some (the_pair i n)
        → i + n ≤ length (x ∷ b)
    here w e = ground arith

take-append : (k : ℕ) (b c : List ℕ) → k ≤ length b → take k (b ++ c) ≡ take k b
take-append zero b c h = refl
take-append (suc k) [] c h = absurd (omega arith)
take-append (suc k) (x ∷ b) c h = rw (take-append k b c (omega arith))

drop-append : (k : ℕ) (b c : List ℕ) → k ≤ length b → drop k (b ++ c) ≡ drop k b ++ c
drop-append zero b c h = refl
drop-append (suc k) [] c h = absurd (omega arith)
drop-append (suc k) (x ∷ b) c h = drop-append k b c (omega arith)

-- An event that can be taken from a buffer is the same when more bytes have arrived behind it: the
-- bytes that arrive are left behind the rest. How a provider cuts its stream into chunks does not
-- change the events.
pub take_next_event-append :
    (buffer more event rest : List ℕ)
    → take_next_event buffer ≡ some (event, rest)
    → take_next_event (buffer ++ more) ≡ some (event, rest ++ more)
unfolding take_next_event
take_next_event-append buffer more event rest h = elim (Option-cases (first buffer)) [
  | inl q ↦ absurd (never (rw q at h))
  | inr ((i, n), q) ↦
      let w = first-within buffer i n q in
      rw
        (
          first-append buffer more (i, n) q,
          take-append i buffer more (omega arith),
          drop-append (i + n) buffer more w,
        )
        (pair (rw q at h))
]
  where
    never : Path (Option (List ℕ × List ℕ)) none (some (event, rest)) → ⊥
    never e = cc

    pair :
        {e r : List ℕ}
        → Path (Option (List ℕ × List ℕ)) (some (e, r)) (some (event, rest))
        → Path (Option (List ℕ × List ℕ)) (some (e, r ++ more)) (some (event, rest ++ more))
    pair e = cc
