-- ===== src/TokenReservation/Limits.antt =====
-- A limit's condition, where it passed, keeps the total of a window within the limit.
use internal_ai_gateway.Base.{
  ℕ, ◌-◌, ◌≤◌, ◌≡◌, true, inl, inr, Option, none, some, ok, Bool-cases, leb, leb→le, arith, lookup,
  Option-cases,
}
use internal_ai_gateway.Base.Int.{ℤ, pos, ◌+ℤ◌, ◌≤ℤ◌, leb_ℤ, int_laws}
use internal_ai_gateway.Base.Decimal.{to_string}
use internal_ai_gateway.Base.Decimal.Laws.{integer-to_string}
use internal_ai_gateway.Services.{
  n, AttributeValue, Item, Condition, either, attribute_not_exists, at_most,
}
use internal_ai_gateway.Services.Documented.{count, number, passes, contents}
use internal_ai_gateway.TokenUsage.{limit_condition, token_count_attribute}

abbrev pub under : ℕ → Condition
under remaining =
    either (attribute_not_exists token_count_attribute)
      (at_most token_count_attribute (n (to_string remaining)))

limit_condition-eq_ok :
    {E : Type 0} (limit budget : ℕ) (e : E) (c : Option Condition)
    → limit_condition (some limit) budget e ≡ ok c
    → (budget ≤ limit) × (c ≡ some (under (limit - budget)))
unfolding limit_condition
limit_condition-eq_ok limit budget e c h = elim (Bool-cases (leb budget limit)) [
  | inl fits ↦ (leb→le budget limit fits, ground arith)
  | inr over ↦ absurd (ground arith)
]

-- The total is absent and counts as 0, or it is at most what the condition names.
under-le :
    (remaining : ℕ) (old : Option Item)
    → passes (some (under remaining)) old ≡ true
    → count token_count_attribute old ≤ℤ pos remaining
unfolding count
under-le remaining old h = elim (Option-cases (lookup token_count_attribute (contents old))) [
  | inl e ↦ rw e (omega arith)
  | inr (v, e) ↦ rw e (at_le v (rw e at h))
]
  where
    at_le :
        (v : AttributeValue)
        → leb_ℤ (number (some v)) (number (some (n (to_string remaining)))) ≡ true
        → number (some v) ≤ℤ pos remaining
    at_le v p = rw (integer-to_string remaining) at (leb→le _ _ p)

-- What a window's limit asks of its item.
abbrev pub Within : Option ℕ → Option Item → Type 0
Within none item = Unit {0}
Within (some limit) item = count token_count_attribute item ≤ℤ pos limit

le_add :
    (x y : ℤ) (limit budget : ℕ)
    → y ≡ x +ℤ pos budget
    → budget ≤ limit
    → x ≤ℤ pos (limit - budget)
    → y ≤ℤ pos limit
le_add x y limit budget e h k = rw e (omega int_laws)

pub limit_condition-Within :
    {E : Type 0} (limit : Option ℕ) (budget : ℕ) (e : E) (c : Option Condition)
    (old new : Option Item)
    → limit_condition limit budget e ≡ ok c
    → passes c old ≡ true
    → count token_count_attribute new ≡ count token_count_attribute old +ℤ pos budget
    → Within limit new
limit_condition-Within none budget e c old new h p m = tt
limit_condition-Within (some limit) budget e c old new h p m =
    let (fits, q) = limit_condition-eq_ok limit budget e c h in
    le_add (count token_count_attribute old) (count token_count_attribute new) limit budget m fits
      (under-le (limit - budget) old (rw q at p))
