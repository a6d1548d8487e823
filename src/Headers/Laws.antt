-- ===== src/Headers/Laws.antt =====
-- Which headers cross the gateway: no header of one hop, and none of the client's credentials.
use mathlib.Core.List.Memᴰ.{Memᴰ}
use mathlib.Core.List.Memᴰ as Member
use mathlib.Core.Bool.{true≢false}
use internal_ai_gateway.Base.{
  ℕ, ◌≡◌, ◌≢◌, ◌↔◌, inl, inr, Bool-cases, refl, sym, ap, subst, ◌∙◌, Bool, true, false, not, List,
  [], ◌∷◌, ◌++◌, Option, some, Text, codes, is_empty, any, text_eq, text_eq_iff, text_eq_refl,
  to_ascii_lowercase, eq_ignore_ascii_case, trim, split, arith,
}
use internal_ai_gateway.Base.Members.{
  mem-any, any-mem, mem-filter, of_filter_map, mem-filter_map, of_flat_map, mem-flat_map,
}
use internal_ai_gateway.Headers.{
  HeaderMap, is_hop_by_hop_header, contains, should_forward_request_header,
  should_forward_openai_request_header, should_forward_response_header, value_of, from_headers,
  forwarded, copy_response_headers,
}

to_ascii_lowercase-to_ascii_lowercase :
    (s : Text) → to_ascii_lowercase (to_ascii_lowercase s) ≡ to_ascii_lowercase s
unfolding to_ascii_lowercase
to_ascii_lowercase-to_ascii_lowercase [] = refl
to_ascii_lowercase-to_ascii_lowercase (c ∷ cs) =
    ground (arith, to_ascii_lowercase-to_ascii_lowercase cs)

-- The headers that are of one hop.
abbrev pub hop_by_hop : List Text
hop_by_hop =
    codes "connection"
    ∷ codes "proxy-authenticate"
    ∷ codes "proxy-authorization"
    ∷ codes "te"
    ∷ codes "trailer"
    ∷ codes "transfer-encoding"
    ∷ codes "upgrade"
    ∷ []

-- The headers that do not go to OpenAI, but for the client's key and those that a `Connection` header
-- names.
abbrev pub withheld : List Text
withheld =
    hop_by_hop
    ++ codes "host"
      ∷ codes "content-length"
      ∷ codes "authorization"
      ∷ codes "accept-encoding"
      ∷ codes "openai-organization"
      ∷ codes "openai-project"
      ∷ []

not_named : (names : List Text) (name : Text) → ¬ Memᴰ name names → any (text_eq name) names ≡ false
not_named names name h = elim (Bool-cases (any (text_eq name) names)) [
  | inl q ↦
      let (x, m, e) = mem-any (text_eq name) names q in
      absurd (h (subst (λ y. Memᴰ y names) (sym ((text_eq_iff name x).0 e)) m))
  | inr q ↦ q
]

named : (names : List Text) (name : Text) → any (text_eq name) names ≡ false → ¬ Memᴰ name names
named names name h m = true≢false (sym (any-mem (text_eq name) m (text_eq_refl name)) ∙ h)

not_the_key :
    (name : Text)
    → (eq_ignore_ascii_case name (codes "x-api-key") ≡ false)
      ↔ (to_ascii_lowercase name ≢ codes "x-api-key")
unfolding to_ascii_lowercase
not_the_key name = (
  λ h e. true≢false (sym ((text_eq_iff _ (codes "x-api-key")).1 e) ∙ h),
  λ h. elim (Bool-cases (eq_ignore_ascii_case name (codes "x-api-key"))) [
    | inl q ↦ absurd (h ((text_eq_iff _ (codes "x-api-key")).0 q))
    | inr q ↦ q
  ],
)

-- What the test on a name says, of three independent tests.
should_forward_openai_request_header_iff :
    (name : Text) (names : List Text)
    → (should_forward_openai_request_header name names ≡ true) ↔ (
        (any (text_eq name) withheld ≡ false)
        × (eq_ignore_ascii_case name (codes "x-api-key") ≡ false)
        × (contains names name ≡ false))
unfolding should_forward_openai_request_header should_forward_request_header is_hop_by_hop_header
should_forward_openai_request_header_iff name names = ground arith

should_forward_response_header_iff :
    (name : Text) (names : List Text)
    → (should_forward_response_header name names ≡ true) ↔ (
        (any (text_eq name) (hop_by_hop ++ codes "content-length" ∷ []) ≡ false)
        × (contains names name ≡ false))
unfolding should_forward_response_header is_hop_by_hop_header
should_forward_response_header_iff name names = ground arith

module _ {V : Type 0} (to_str : V → Option Text) (is_whitespace : ℕ → Bool) where
  -- A piece between the commas of a `Connection` header names the header, in any case and with white
  -- space around it.
  abbrev pub IsNamed : HeaderMap V → Text → Type 0
  IsNamed headers name =
      (value : V) × (text : Text) × (piece : Text) × Memᴰ (codes "connection", value) headers
      × (to_str value ≡ some text)
      × Memᴰ piece (split 44 text)
      × (is_empty (trim is_whitespace piece) ≡ false)
      × (to_ascii_lowercase name ≡ to_ascii_lowercase (trim is_whitespace piece))

  value_of_iff :
      (name : Text) (entry : Text × V) (value : V)
      → (value_of name entry ≡ some value) ↔ (entry ≡ (name, value))
  value_of_iff name (key, value) other = ground (arith, text_eq_iff key name)

  not-empty :
      (piece trimmed : Text)
      → trim is_whitespace piece ≡ trimmed
      → not (is_empty trimmed) ≡ true
      → is_empty (trim is_whitespace piece) ≡ false
  not-empty piece trimmed e h = rw e (ground arith)

  same :
      (name piece trimmed lower : Text)
      → trim is_whitespace piece ≡ trimmed
      → to_ascii_lowercase trimmed ≡ lower
      → eq_ignore_ascii_case name lower ≡ true
      → to_ascii_lowercase name ≡ to_ascii_lowercase (trim is_whitespace piece)
  same name piece trimmed lower t q h =
      (text_eq_iff _ _).0 h
      ∙ ap to_ascii_lowercase (sym q)
      ∙ to_ascii_lowercase-to_ascii_lowercase _
      ∙ ap to_ascii_lowercase (sym t)

  same_from :
      (name trimmed : Text)
      → to_ascii_lowercase name ≡ to_ascii_lowercase trimmed
      → eq_ignore_ascii_case name (to_ascii_lowercase trimmed) ≡ true
  same_from name trimmed e = (text_eq_iff _ _).1 (e ∙ sym (to_ascii_lowercase-to_ascii_lowercase _))

  -- The names that are read from the `Connection` headers are those of their pieces.
  pub contains-from_headers_iff :
      (headers : HeaderMap V) (name : Text)
      → (contains (from_headers to_str is_whitespace headers) name ≡ true) ↔ IsNamed headers name
  unfolding contains from_headers
  contains-from_headers_iff headers name = (to, from)
    where
      to : contains (from_headers to_str is_whitespace headers) name ≡ true → IsNamed headers name
      to h =
          let (lower, m, e) = mem-any (λ c. eq_ignore_ascii_case name c) _ h in
          let (trimmed, m, q) = Member.of_map to_ascii_lowercase _ m in
          let (m, full) = (mem-filter _ trimmed _).0 m in
          let (piece, m, t) = Member.of_map (trim is_whitespace) _ m in
          let (text, m, within) = of_flat_map (split 44) piece _ m in
          let (value, m, decodes) = of_filter_map to_str text _ m in
          let ((key, value'), m, found) = of_filter_map (value_of (codes "connection")) value _ m in
          let entry = subst (λ x. Memᴰ x headers) ((value_of_iff _ _ value).0 found) m in
          (value, text, piece, entry, decodes, within, not-empty _ _ t full, same _ _ _ _ t q e)

      from : IsNamed headers name → contains (from_headers to_str is_whitespace headers) name ≡ true
      from (value, text, piece, m, decodes, within, full, e) =
          let found = (value_of_iff (codes "connection") _ value).1 refl in
          let m = mem-filter_map (value_of (codes "connection")) m found in
          let m =
            Member.map (trim is_whitespace)
              (mem-flat_map (split 44) (mem-filter_map to_str m decodes) within) in
          let m = (mem-filter (λ value. not (is_empty value)) _ _).1 (m, rw full refl) in
          any-mem (λ c. eq_ignore_ascii_case name c) (Member.map to_ascii_lowercase m)
            (same_from _ _ e)

  not_contained :
      (headers : HeaderMap V) (name : Text)
      → ¬ IsNamed headers name ↔ (contains (from_headers to_str is_whitespace headers) name ≡ false)
  not_contained headers name = (
    λ h. elim (Bool-cases (contains (from_headers to_str is_whitespace headers) name)) [
      | inl q ↦ absurd (h ((contains-from_headers_iff headers name).0 q))
      | inr q ↦ q
    ],
    λ q m. true≢false (sym ((contains-from_headers_iff headers name).1 m) ∙ q),
  )

  -- A header of the request goes to OpenAI exactly if it is not withheld, is not the client's key in any
  -- case, and is not named by a piece of a `Connection` header of the request. Its values are unchanged.
  pub forwarded_to_openai_iff :
      (headers : HeaderMap V) (name : Text) (value : V)
      → Memᴰ
          (name, value)
          (forwarded to_str is_whitespace should_forward_openai_request_header headers)
        ↔ (Memᴰ (name, value) headers
            × ¬ Memᴰ name withheld
            × (to_ascii_lowercase name ≢ codes "x-api-key")
            × ¬ IsNamed headers name)
  unfolding forwarded
  forwarded_to_openai_iff headers name value = (
    λ m.
        let (m, t) = (mem-filter _ (name, value) headers).0 m in
        let (a, b, c) = (should_forward_openai_request_header_iff name _).0 t in
        (m, named withheld name a, (not_the_key name).0 b, (not_contained headers name).1 c),
    λ (m, a, b, c). (mem-filter _ (name, value) headers).1 (
      m,
      (should_forward_openai_request_header_iff name _).1
          (not_named withheld name a, (not_the_key name).1 b, (not_contained headers name).0 c),
    ),
  )

  -- A header of the response goes to the client exactly if it is not of one hop, is not the length of the
  -- content, and is not named by a piece of a `Connection` header of the response.
  pub copied_to_client_iff :
      (headers : HeaderMap V) (name : Text) (value : V)
      → Memᴰ (name, value) (copy_response_headers to_str is_whitespace headers []) ↔ (
          Memᴰ (name, value) headers
          × ¬ Memᴰ name (hop_by_hop ++ codes "content-length" ∷ [])
          × ¬ IsNamed headers name)
  unfolding forwarded copy_response_headers
  copied_to_client_iff headers name value = (
    λ m.
        let (m, t) = (mem-filter _ (name, value) headers).0 m in
        let (a, c) = (should_forward_response_header_iff name _).0 t in
        (m, named _ name a, (not_contained headers name).1 c),
    λ (m, a, c). (mem-filter _ (name, value) headers).1 (
      m,
      (should_forward_response_header_iff name _).1
          (not_named _ name a, (not_contained headers name).0 c),
    ),
  )
