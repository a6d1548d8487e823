-- ===== src/Base/Actions.antt =====
-- A call that may fail and that acts on a shared state: what it did stays done when it fails.
use mathlib.Core.Path.{◌≡◌, refl}
use mathlib.Core.Logic.{inl, inr}
use internal_ai_gateway.Base.Results.{Result, ok, err, map_err, Result-cases}

abbrev pub Action : Type 0 → Type 0 → Type 0 → Type 0
Action S E A = S → Result E A × S

module _ {S E : Type 0} where
  -- `.await?`, then the rest.
  infixl 5 ◌>>=◌ ◌>>◌
  abbrev pub ◌>>=◌ : {A B : Type 0} → Action S E A → (A → Action S E B) → Action S E B
  ◌>>=◌ m f a = let (r, b) = m a in elim r [ ok x ↦ f x b | err e ↦ (err e, b) ]

  abbrev pub ◌>>◌ : {A B : Type 0} → Action S E A → Action S E B → Action S E B
  m >> k = m >>= λ _. k

  -- A step that does not act.
  abbrev pub pure : {A : Type 0} → Result E A → Action S E A
  pure r a = (r, a)

  -- A step that cannot fail.
  abbrev pub run : {A : Type 0} → (S → A × S) → Action S E A
  run f a = let (x, b) = f a in (ok x, b)

abbrev pub map_err_of : {S D E A : Type 0} → (D → E) → Action S D A → Action S E A
map_err_of f m a = let (r, b) = m a in (map_err f r, b)

-- A chain that ends well has a first step that did, and goes on from there.
pub >>=-eq-ok :
    {S E A B : Type 0} (m : Action S E A) (f : A → Action S E B) (a : S) {y : B}
    → ((m >>= f) a).0 ≡ ok y
    → (x : A) × ((m a).0 ≡ ok x) × ((m >>= f) a ≡ f x (m a).1)
>>=-eq-ok m f a e = elim (Result-cases (m a).0) [
  | inl (x, q) ↦ (x, q, rw (q, ◌>>=◌) refl)
  | inr (x, q) ↦ let h : err x ≡ ok _ = rw (q, ◌>>=◌) at e in cc
]
