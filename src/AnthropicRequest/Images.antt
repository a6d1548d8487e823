-- ===== src/AnthropicRequest/Images.antt =====
-- The images of a request are counted as often as they stand in it.
use internal_ai_gateway.Base.{
  ℕ, ◌+◌, ◌≤◌, ◌≡◌, refl, ap, ◌∙◌, inl, inr, Bool, true, false, Option, none, some, Text, codes,
  text_eq, if◌then◌else◌, Result, ok, err, Bool-cases, checked_add, u64_max, leb, arith,
}
use internal_ai_gateway.Documents.{
  Json, object, array, string, number, bool, null, malformed, Members, Elements, member, element,
  end_object, broken_object, end_array, broken_array,
}
use internal_ai_gateway.AnthropicRequest.{
  AnthropicRequestError, type_of, add_images, count_image_inputs, count_members, count_elements,
}

abbrev pub sum : Option ℕ → Option ℕ → Option ℕ
sum none n = none
sum (some m) none = none
sum (some m) (some n) = some (m + n)

-- The text that a member gives, where its name is `type`.
abbrev text_of : Json → Option Text
text_of (object members) = none
text_of (array elements) = none
text_of malformed = none
text_of (string text) = some text
text_of (number value) = none
text_of (bool value) = none
text_of null = none

abbrev pub declared_type : Text → Json → Option Text
declared_type name value = if text_eq name (codes "type") then text_of value else none

-- A member that declares a type is an image or not; any other one has the images of its value.
abbrev pub member_images : Option Text → Option ℕ → Option ℕ → Option ℕ
member_images none within rest = sum within rest
member_images (some text) within rest =
    sum (some (if text_eq text (codes "image") then 1 else 0)) rest

declared_type_lem : (name : Text) (value : Json) → type_of name value ≡ declared_type name value
declared_type_lem name (object members) = ground arith
declared_type_lem name (array elements) = ground arith
declared_type_lem name malformed = ground arith
declared_type_lem name (string text) = refl
declared_type_lem name (number value) = ground arith
declared_type_lem name (bool value) = ground arith
declared_type_lem name null = ground arith

-- The images of a document that is whole: its objects, at any depth, that have the type of an image.
unfoldable mutual
  pub images : Json → Option ℕ
  images (object members) = images_of_members members
  images (array elements) = images_of_elements elements
  images malformed = none
  images (string text) = some 0
  images (number value) = some 0
  images (bool value) = some 0
  images null = some 0

  pub images_of_members : Members → Option ℕ
  images_of_members end_object = some 0
  images_of_members broken_object = none
  images_of_members (member name value rest) =
      member_images (declared_type name value) (images value) (images_of_members rest)

  pub images_of_elements : Elements → Option ℕ
  images_of_elements end_array = some 0
  images_of_elements broken_array = none
  images_of_elements (element value rest) = sum (images value) (images_of_elements rest)

abbrev pub to_option : Result AnthropicRequestError ℕ → Option ℕ
to_option (ok n) = some n
to_option (err e) = none

-- A count that goes on from another.
abbrev pub added : ℕ → Option ℕ → Option ℕ
added acc none = none
added acc (some n) = checked_add acc n

go_on :
    (acc m n : ℕ) (spec_rest : Option ℕ)
    → m ≡ n
    → added (acc + m) spec_rest ≡ added acc (sum (some n) spec_rest)
go_on acc m n none e = refl
go_on acc m n (some r) e = ground arith

stops :
    (acc m n : ℕ) (spec_rest : Option ℕ)
    → m ≡ n
    → leb (acc + m) u64_max ≡ false
    → none ≡ added acc (sum (some n) spec_rest)
stops acc m n none e l = refl
stops acc m n (some r) e l = ground arith

value_then_rest :
    (acc : ℕ) (counted : Result AnthropicRequestError ℕ) (spec : Option ℕ)
    (rest : ℕ → Result AnthropicRequestError ℕ) (spec_rest : Option ℕ)
    → acc ≤ u64_max
    → to_option counted ≡ added 0 spec
    → ((n : ℕ) → n ≤ u64_max → to_option (rest n) ≡ added n spec_rest)
    → to_option (elim counted [
      | ok more ↦ elim (add_images acc more) [ ok sum ↦ rest sum | err e ↦ err e ]
      | err e ↦ err e
    ])
      ≡ added acc (sum spec spec_rest)
value_then_rest acc (err x) none rest spec_rest h e k = refl
value_then_rest acc (err x) (some m) rest none h e k = refl
value_then_rest acc (err x) (some m) rest (some n) h e k = ground arith
value_then_rest acc (ok m) none rest spec_rest h e k = absurd (never e)
  where
    never : some m ≡ none → ⊥
    never q = cc
value_then_rest acc (ok m) (some n) rest spec_rest h e k =
    let q : m ≡ n = ground arith in
    elim (Bool-cases (leb (acc + m) u64_max)) [
      | inl l ↦ rw l (k (acc + m) (ground arith) ∙ go_on acc m n spec_rest q)
      | inr l ↦ rw l (stops acc m n spec_rest q l)
    ]

-- One image more.
image_then_rest :
    (acc : ℕ) (test : Bool) (rest : ℕ → Result AnthropicRequestError ℕ) (spec_rest : Option ℕ)
    → acc ≤ u64_max
    → ((n : ℕ) → n ≤ u64_max → to_option (rest n) ≡ added n spec_rest)
    → to_option (elim test [
      | true ↦ elim (add_images acc 1) [ ok sum ↦ rest sum | err e ↦ err e ]
      | false ↦ rest acc
    ])
      ≡ added acc (sum (some (if test then 1 else 0)) spec_rest)
image_then_rest acc true rest spec_rest h k =
    value_then_rest acc (ok 1) (some 1) rest spec_rest h refl k
image_then_rest acc false rest none h k = k acc h
image_then_rest acc false rest (some n) h k = k acc h ∙ ap (checked_add acc) (omega arith)

-- A member, by the type that it gives.
member_then_rest :
    (acc : ℕ) (type : Option Text) (counted : Result AnthropicRequestError ℕ) (spec : Option ℕ)
    (rest : ℕ → Result AnthropicRequestError ℕ) (spec_rest : Option ℕ)
    → acc ≤ u64_max
    → to_option counted ≡ added 0 spec
    → ((n : ℕ) → n ≤ u64_max → to_option (rest n) ≡ added n spec_rest)
    → to_option (elim type [
      | some text ↦ elim (text_eq text (codes "image")) [
        | true ↦ elim (add_images acc 1) [ ok sum ↦ rest sum | err e ↦ err e ]
        | false ↦ rest acc
      ]
      | none ↦ elim counted [
        | ok more ↦ elim (add_images acc more) [ ok sum ↦ rest sum | err e ↦ err e ]
        | err e ↦ err e
      ]
    ])
      ≡ added acc (member_images type spec spec_rest)
member_then_rest acc none counted spec rest spec_rest h e k =
    value_then_rest acc counted spec rest spec_rest h e k
member_then_rest acc (some text) counted spec rest spec_rest h e k =
    image_then_rest acc (text_eq text (codes "image")) rest spec_rest h k

mutual
  unfolding count_image_inputs images

  counted : (document : Json) → to_option (count_image_inputs document) ≡ added 0 (images document)
  counted (object members) = counted_members 0 members (omega arith)
  counted (array elements) = counted_elements 0 elements (omega arith)
  counted malformed = refl
  counted (string text) = refl
  counted (number value) = refl
  counted (bool value) = refl
  counted null = refl

  counted_members :
      (acc : ℕ) (members : Members)
      → acc ≤ u64_max
      → to_option (count_members acc members) ≡ added acc (images_of_members members)
  counted_members acc end_object h = ground arith
  counted_members acc broken_object h = refl
  counted_members acc (member name value rest) h =
      member_then_rest acc (type_of name value) (count_image_inputs value) (images value)
        (λ n. count_members n rest) (images_of_members rest) h (counted value)
        (λ n l. counted_members n rest l)
      ∙ ap (λ type. added acc (member_images type (images value) (images_of_members rest)))
          (declared_type_lem name value)

  counted_elements :
      (acc : ℕ) (elements : Elements)
      → acc ≤ u64_max
      → to_option (count_elements acc elements) ≡ added acc (images_of_elements elements)
  counted_elements acc end_array h = ground arith
  counted_elements acc broken_array h = refl
  counted_elements acc (element value rest) h =
      value_then_rest acc (count_image_inputs value) (images value) (λ n. count_elements n rest)
        (images_of_elements rest) h (counted value) (λ n l. counted_elements n rest l)

-- The count is that of the images, if the document is whole and the number fits 64 bits; otherwise it
-- fails.
pub count_image_inputs_lem :
    (document : Json) → to_option (count_image_inputs document) ≡ added 0 (images document)
count_image_inputs_lem document = counted document
