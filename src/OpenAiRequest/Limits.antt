-- ===== src/OpenAiRequest/Limits.antt =====
-- What the limits on an OpenAI request guarantee.
use internal_ai_gateway.Base.{
  ℕ, zero, suc, ◌+◌, ◌*◌, ◌≤◌, ◌<◌, ◌≡◌, refl, ap, sym, ◌∙◌, Bool, true, false, inl, inr, List, [],
  ◌∷◌, length, ltb, leb, leb→le, if◌then◌else◌, Result, ok, err, u64_max, arith, saturating_add,
  Bool-cases,
}
use internal_ai_gateway.OpenAiRequest.{
  token_budget_overflow, calculate_token_budget, image_input_token_reserve, IoError, file_too_large,
  LimitedSpoolWriter, write_spool, spooled, JsonKeyLimitReader, ContainerKind, new_reader, inspect,
  inspect_byte, inspect_string, inspect_structure, inspect_content, push_container, with_containers,
  pop, set_expecting, array, object, max_json_nesting_depth, max_json_key_bytes, invalid_data,
}

-- The budget of a request is exactly the bytes of its body, the reserve of its images and the tokens of
-- its answer where that sum fits in 64 bits, and an error otherwise.
pub calculate_token_budget_lem :
    (body output images : ℕ)
    → let sum = body + images * image_input_token_reserve + output in
      (sum ≤ u64_max → calculate_token_budget body output images ≡ ok sum)
      × (u64_max < sum → calculate_token_budget body output images ≡ err token_budget_overflow)
unfolding calculate_token_budget
calculate_token_budget_lem body output images = (λ h. ground arith, λ h. ground arith)

abbrev Outcome : Type 0
Outcome = Result IoError (Unit {0}) × JsonKeyLimitReader

abbrev and_then : Outcome → (JsonKeyLimitReader → Outcome) → Outcome
and_then p next = elim p.0 [ ok _ ↦ next p.1 | err e ↦ (err e, p.1) ]

-- The limits, as a predicate on the reader.
pub record IsBounded (r : JsonKeyLimitReader) : Type 0 where
  pub depth : length r.containers ≤ max_json_nesting_depth
  pub key : r.key_bytes ≤ max_json_key_bytes

set_expecting-length :
    (b : Bool) (cs : List ContainerKind) → length (set_expecting b cs) ≡ length cs
set_expecting-length b [] = refl
set_expecting-length b (array ∷ cs) = refl
set_expecting-length b (object c ∷ cs) = refl

pop-length : (cs : List ContainerKind) → length (pop cs) ≤ length cs
pop-length [] = omega arith
pop-length (c ∷ cs) = omega arith

inspect_content-IsBounded :
    (escaped : Bool) (r : JsonKeyLimitReader)
    → IsBounded r
    → (inspect_content escaped r).0 ≡ ok tt
    → IsBounded (inspect_content escaped r).1
unfolding inspect_content
inspect_content-IsBounded escaped r h e = record { depth = ground arith; key = ground arith }

push_container-IsBounded :
    (c : ContainerKind) (r : JsonKeyLimitReader) → IsBounded r → IsBounded (push_container c r).1
unfolding push_container
push_container-IsBounded c r h = record { depth = ground arith; key = ground arith }

inspect_byte-IsBounded :
    (byte : ℕ) (r : JsonKeyLimitReader)
    → IsBounded r
    → (inspect_byte byte r).0 ≡ ok tt
    → IsBounded (inspect_byte byte r).1
unfolding inspect_byte inspect_string inspect_structure inspect_content push_container
inspect_byte-IsBounded byte r h e = record {
  depth = ground (
    arith,
    set_expecting-length false r.containers,
    set_expecting-length true r.containers,
    pop-length r.containers,
  );
  key = ground arith;
}

-- A chain that ends well went on behind a first step that did.
and_then-eq-ok :
    (p : Outcome) (next : JsonKeyLimitReader → Outcome)
    → (and_then p next).0 ≡ ok tt
    → (p.0 ≡ ok tt) × (and_then p next ≡ next p.1)
and_then-eq-ok (ok tt, r) next h = (refl, refl)
and_then-eq-ok (err e, r) next h = cc

-- A reader that has let bytes through, whichever they were, has at most 128 open containers and a key of
-- at most 8,192 bytes: what is behind it never needs more room for either.
pub inspect-IsBounded :
    (bytes : List ℕ) (r : JsonKeyLimitReader)
    → IsBounded r
    → (inspect bytes r).0 ≡ ok tt
    → IsBounded (inspect bytes r).1
unfolding inspect
inspect-IsBounded [] r h e = h
inspect-IsBounded (x ∷ bytes) r h e =
    let (first, q) = and_then-eq-ok (inspect_byte x r) (inspect bytes) e in
    rw q (
      inspect-IsBounded bytes (inspect_byte x r).1 (inspect_byte-IsBounded x r h first)
        (ap (λ p. p.0) (sym q) ∙ e))

-- Openings of arrays.
abbrev pub opening : ℕ → List ℕ
opening zero = []
opening (suc n) = b'[' ∷ opening n

inspect_opening :
    (r : JsonKeyLimitReader) → r.in_string ≡ false → inspect_byte b'[' r ≡ push_container array r
unfolding inspect_byte inspect_structure
inspect_opening r h = ap (λ b. if b then inspect_string b'[' r else push_container array r) h

push_container_ok :
    (c : ContainerKind) (r : JsonKeyLimitReader)
    → length r.containers < max_json_nesting_depth
    → push_container c r ≡ (ok tt, with_containers (c ∷ r.containers) r)
unfolding push_container
push_container_ok c r h = ground arith

push_container_err :
    (c : ContainerKind) (r : JsonKeyLimitReader)
    → max_json_nesting_depth ≤ length r.containers
    → push_container c r ≡ (err invalid_data, r)
unfolding push_container
push_container_err c r h = ground arith

opening_ok :
    (n : ℕ) (r : JsonKeyLimitReader)
    → r.in_string ≡ false
    → length r.containers + n ≤ max_json_nesting_depth
    → (inspect (opening n) r).0 ≡ ok tt
unfolding inspect
opening_ok zero r h d = refl
opening_ok (suc n) r h d =
    ap (λ p. (and_then p (inspect (opening n))).0)
      (inspect_opening r h ∙ push_container_ok array r (omega arith))
    ∙ (opening_ok n (with_containers (array ∷ r.containers) r) h (omega arith))

opening_err :
    (n : ℕ) (r : JsonKeyLimitReader)
    → r.in_string ≡ false
    → length r.containers ≤ max_json_nesting_depth
    → max_json_nesting_depth < length r.containers + n
    → (inspect (opening n) r).0 ≡ err invalid_data
unfolding inspect
opening_err zero r h d e = absurd (omega arith)
opening_err (suc n) r h d e = elim (Bool-cases (leb max_json_nesting_depth (length r.containers))) [
  | inl f ↦
      ap (λ p. (and_then p (inspect (opening n))).0)
        (inspect_opening r h ∙ push_container_err array r (leb→le _ _ f))
  | inr f ↦
      ap (λ p. (and_then p (inspect (opening n))).0)
        (inspect_opening r h ∙ push_container_ok array r (ground arith))
      ∙ (opening_err n (with_containers (array ∷ r.containers) r) h (ground arith) (omega arith))
]

-- Arrays that are opened one inside the other are let through up to a depth of 128, and refused beyond.
pub inspect-opening :
    (n : ℕ)
    → (n ≤ max_json_nesting_depth → (inspect (opening n) new_reader).0 ≡ ok tt)
      × (max_json_nesting_depth < n → (inspect (opening n) new_reader).0 ≡ err invalid_data)
unfolding new_reader
inspect-opening n = (
  λ h. opening_ok n new_reader refl (omega arith),
  λ h. opening_err n new_reader refl (omega arith) (omega arith),
)

spooled_lem :
    {W : Type 0} (inner_write : List ℕ → W → Result IoError ℕ × W) (p : Result IoError ℕ × W)
    (w : LimitedSpoolWriter W)
    → w.written ≤ w.limit
    → w.limit < u64_max
    → ((n : ℕ) → p.0 ≡ ok n → w.written + n ≤ w.limit)
    → ((spooled inner_write w p).1.written ≤ w.limit)
      × ((n : ℕ)
          → (spooled inner_write w p).0 ≡ ok n
          → (spooled inner_write w p).1.written ≡ w.written + n)
spooled_lem inner_write (ok m, v) w h k b =
    let c = b m refl in (omega arith, λ n e. let same : m ≡ n = cc in omega arith)
spooled_lem inner_write (err x, v) w h k b = (h, λ n e. cc)

-- A spool writer never passes on more than its limit in all, where the writer inside writes at most what
-- it is given: each write keeps the count within the limit, and the count grows by what was written. A
-- write that would exceed the limit is refused, and passes nothing on.
pub write_spool_bounded :
    {W : Type 0} (inner_write : List ℕ → W → Result IoError ℕ × W)
    (short : (input : List ℕ) (v : W) (n : ℕ) → (inner_write input v).0 ≡ ok n → n ≤ length input)
    (input : List ℕ) (w : LimitedSpoolWriter W)
    → w.written ≤ w.limit
    → w.limit < u64_max
    → ((write_spool inner_write input w).1.written ≤ w.limit)
      × ((n : ℕ)
          → (write_spool inner_write input w).0 ≡ ok n
          → (write_spool inner_write input w).1.written ≡ w.written + n)
      × (w.limit < w.written + length input
          → write_spool inner_write input w ≡ (err file_too_large, w))
unfolding write_spool
write_spool_bounded inner_write short input w h k =
    elim (Bool-cases (ltb w.limit (saturating_add w.written (length input)))) [
      | inl f ↦ rw f (h, λ n e. cc, λ e. refl)
      | inr f ↦
          let (bounded, counted) =
            spooled_lem inner_write (inner_write input w.inner) w h k
              (λ n e. let s = short input w.inner n e in ground arith) in
          rw f (bounded, counted, λ e. absurd (ground arith))
    ]
