-- ===== src/Base/Members.antt =====
-- What the iterator adapters keep of a list, by membership.
use mathlib.Core.Path.{◌≡◌, refl, sym, ap, ◌∙◌, subst}
use mathlib.Core.Logic.{◌↔◌, inl, inr}
use mathlib.Core.Bool.{Bool, true, false, true≢false}
use mathlib.Core.List.{List, [], ◌∷◌}
use mathlib.Core.List.Memᴰ.{Memᴰ, head, tail}
use mathlib.Core.List.Memᴰ as Member
use mathlib.Core.Option.{Option, some}
use internal_ai_gateway.Base.Tests.{Bool-cases, Option-cases}
use internal_ai_gateway.Base.Lists.{any, filter, filter_map, flat_map}

module _ {ℓ} {A : Type ℓ} where
  pub mem-any : (p : A → Bool) (xs : List A) → any p xs ≡ true → (x : A) × Memᴰ x xs × (p x ≡ true)
  mem-any p [] h = cc
  mem-any p (x ∷ xs) h = elim (Bool-cases (p x)) [
    | inl q ↦ (x, head refl, q)
    | inr q ↦ let (y, m, r) = mem-any p xs (rw q at h) in (y, tail m, r)
  ]

  pub any-mem : (p : A → Bool) {x : A} {xs : List A} → Memᴰ x xs → p x ≡ true → any p xs ≡ true
  any-mem p {x} {xs = []} m h = absurd (Member.not-nil m)
  any-mem p {x} {xs = y ∷ ys} (head e) h = let q : p y ≡ true = ap p (sym e) ∙ h in rw q
  any-mem p {x} {xs = y ∷ ys} (tail m) h = elim (Bool-cases (p y)) [
    | inl q ↦ rw q
    | inr q ↦ rw (q, any-mem p m h)
  ]

  abbrev Kept : (A → Bool) → A → List A → Type ℓ
  Kept p x xs = Memᴰ x (filter p xs) ↔ (Memᴰ x xs × (p x ≡ true))

  cons-Kept : (p : A → Bool) (x y : A) (ys : List A) → p y ≡ true → Kept p x ys → Kept p x (y ∷ ys)
  unfolding filter
  cons-Kept p x y ys q (to, from) =
      rw (q, Kept, filter)
        (
          λ m. elim (Member.cases_cons m) [
            | inl e ↦ (head e, ap p e ∙ q)
            | inr n ↦ (tail (to n).0, (to n).1)
          ],
          λ (m, r). elim (Member.cases_cons m) [ inl e ↦ head e | inr n ↦ tail (from (n, r)) ],
        )

  cons_left_out :
      (p : A → Bool) (x y : A) (ys : List A) → p y ≡ false → Kept p x ys → Kept p x (y ∷ ys)
  unfolding filter
  cons_left_out p x y ys q (to, from) =
      rw (q, Kept, filter)
        (
          λ m. (tail (to m).0, (to m).1),
          λ (m, r). elim (Member.cases_cons m) [
            | inl e ↦ absurd (true≢false (sym (ap p (sym e) ∙ r) ∙ q))
            | inr n ↦ from (n, r)
          ],
        )

  pub mem-filter : (p : A → Bool) (x : A) (xs : List A) → Kept p x xs
  unfolding filter
  mem-filter p x [] = (λ m. absurd (Member.not-nil m), λ m. absurd (Member.not-nil m.0))
  mem-filter p x (y ∷ ys) = elim (Bool-cases (p y)) [
    | inl q ↦ cons-Kept p x y ys q (mem-filter p x ys)
    | inr q ↦ cons_left_out p x y ys q (mem-filter p x ys)
  ]

module _ {ℓ κ} {A : Type ℓ} {B : Type κ} where
  pub of_filter_map :
      (f : A → Option B) (y : B) (xs : List A)
      → Memᴰ y (filter_map f xs)
      → (x : A) × Memᴰ x xs × (f x ≡ some y)
  unfolding filter_map
  of_filter_map f y [] m = absurd (Member.not-nil m)
  of_filter_map f y (x ∷ xs) m = elim (Option-cases (f x)) [
    | inl q ↦ let (z, n, r) = of_filter_map f y xs (rw (q, filter_map) at m) in (z, tail n, r)
    | inr (w, q) ↦ elim (Member.cases_cons (rw (q, filter_map) at m)) [
      | inl e ↦ (x, head refl, q ∙ ap some (sym e))
      | inr k ↦ let (z, n, r) = of_filter_map f y xs k in (z, tail n, r)
    ]
  ]

  pub mem-filter_map :
      (f : A → Option B) {x : A} {xs : List A} {y : B}
      → Memᴰ x xs
      → f x ≡ some y
      → Memᴰ y (filter_map f xs)
  unfolding filter_map
  mem-filter_map f {x} {xs = []} {y} m h = absurd (Member.not-nil m)
  mem-filter_map f {x} {xs = z ∷ xs} {y} (head e) h =
      let q : f z ≡ some y = ap f (sym e) ∙ h in rw (q, filter_map) (head refl)
  mem-filter_map f {x} {xs = z ∷ xs} {y} (tail m) h = elim (Option-cases (f z)) [
    | inl q ↦ rw (q, filter_map) (mem-filter_map f m h)
    | inr (w, q) ↦ rw (q, filter_map) (tail (mem-filter_map f m h))
  ]

  pub of_flat_map :
      (f : A → List B) (y : B) (xs : List A)
      → Memᴰ y (flat_map f xs)
      → (x : A) × Memᴰ x xs × Memᴰ y (f x)
  unfolding flat_map
  of_flat_map f y [] m = absurd (Member.not-nil m)
  of_flat_map f y (x ∷ xs) m = elim (Member.append_cases (f x) m) [
    | inl k ↦ (x, head refl, k)
    | inr k ↦ let (z, n, r) = of_flat_map f y xs k in (z, tail n, r)
  ]

  pub mem-flat_map :
      (f : A → List B) {x : A} {xs : List A} {y : B}
      → Memᴰ x xs
      → Memᴰ y (f x)
      → Memᴰ y (flat_map f xs)
  unfolding flat_map
  mem-flat_map f {x} {xs = []} {y} n m = absurd (Member.not-nil n)
  mem-flat_map f {x} {xs = z ∷ xs} {y} (head e) m =
      Member.append_left (flat_map f xs) (subst (λ w. Memᴰ y (f w)) e m)
  mem-flat_map f {x} {xs = z ∷ xs} {y} (tail n) m = Member.append_right (f z) (mem-flat_map f n m)
