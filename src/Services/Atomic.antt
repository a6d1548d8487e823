-- ===== src/Services/Atomic.antt =====
-- States that agree on every item, and transactions seen from such states.
use internal_ai_gateway.Base.{refl, ◌∙◌, List, [], ◌∷◌, ◌⊎◌, inl, inr, All, ap}
use internal_ai_gateway.Services.{TransactWriteItem}
use internal_ai_gateway.Services.Documented.{
  View, Same, Applied, PassesIn, applied, table_of, key_of,
}

module _ {S : Type 0} (v : View S) where
  pub Same-refl : (a : S) → Same v a a
  Same-refl a = record { same = λ table key. refl }

  pub Same-trans : {a b c : S} → Same v a b → Same v b c → Same v a c
  Same-trans p q = record { same = λ table key. q.same table key ∙ p.same table key }

  PassesIn-Same :
      (a b : S)
      → Same v a b
      → (ws : List TransactWriteItem) → All (PassesIn v b) ws
      → All (PassesIn v a) ws
  PassesIn-Same a b h [] p = tt
  PassesIn-Same a b h (w ∷ ws) p =
      (rw (h.same (table_of w) (key_of w)) at p.0, PassesIn-Same a b h ws p.1)

  pub Applied-Same :
      {a b c : S} (ws : List TransactWriteItem) → Same v a b → Applied v ws b c → Applied v ws a c
  Applied-Same {a} {b} ws h k = record {
    passed = PassesIn-Same a b h ws k.passed;
    written = λ table key. k.written table key ∙ ap (applied ws table key) (h.same table key);
  }

  -- Nothing, or the whole transaction.
  abbrev pub AtMostOnce : List TransactWriteItem → S → S → Type 0
  AtMostOnce ws a b = Same v a b ⊎ Applied v ws a b

  pub AtMostOnce-Same :
      {a b c : S} (ws : List TransactWriteItem) → Same v a b → AtMostOnce ws b c → AtMostOnce ws a c
  AtMostOnce-Same ws h (inl k) = inl (Same-trans h k)
  AtMostOnce-Same ws h (inr k) = inr (Applied-Same ws h k)
