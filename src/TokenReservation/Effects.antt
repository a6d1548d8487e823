-- ===== src/TokenReservation/Effects.antt =====
-- What the writes of a hold and of its settlement do to the counters of a usage window.
use internal_ai_gateway.Base.{ℕ, ◌≡◌, refl, List, [], ◌∷◌, Option, some, Text, text_eq, unwrap_or}
use internal_ai_gateway.Base.Int.{ℤ, pos, ◌+ℤ◌, +ℤ_interchange, int_laws}
use internal_ai_gateway.Base.Decimal.{to_string, int_to_string}
use internal_ai_gateway.Base.Decimal.Laws.{integer-to_string, integer-int_to_string}
use internal_ai_gateway.Services.{n, Item, Clause, set_to, add}
use internal_ai_gateway.Services.Documented.{count, apply_clauses}
use internal_ai_gateway.Services.Counters.{count-add, count-set, count-base}
use internal_ai_gateway.TokenUsage.{
  token_count_attribute, consumed_tokens_attribute, ttl_attribute, usage_key,
}
use internal_ai_gateway.TokenReservation.Writes.{reserved_tokens_attribute}

-- The clauses of `reservation_update`.
abbrev pub hold_clauses : ℕ → ℕ → List Clause
hold_clauses ttl budget =
    set_to ttl_attribute (n (to_string ttl))
    ∷ add token_count_attribute (n (to_string budget))
    ∷ add reserved_tokens_attribute (n (to_string budget))
    ∷ []

-- The clauses of `reconciliation_update`.
abbrev pub settle_clauses : ℤ → ℤ → ℕ → List Clause
settle_clauses total reserved consumed =
    add token_count_attribute (n (int_to_string total))
    ∷ add reserved_tokens_attribute (n (int_to_string reserved))
    ∷ add consumed_tokens_attribute (n (to_string consumed))
    ∷ []

-- The clauses of `usage_update`.
abbrev pub usage_clauses : ℕ → ℕ → List Clause
usage_clauses ttl tokens =
    set_to ttl_attribute (n (to_string ttl))
    ∷ add token_count_attribute (n (to_string tokens))
    ∷ add consumed_tokens_attribute (n (to_string tokens))
    ∷ []

-- By how much the total, the reserved and the consumed tokens of an item change.
pub record Moves (old new : Option Item) (total reserved consumed : ℤ) : Type 0 where
  pub total_moves : count token_count_attribute new ≡ count token_count_attribute old +ℤ total
  pub reserved_moves :
      count reserved_tokens_attribute new ≡ count reserved_tokens_attribute old +ℤ reserved
  pub consumed_moves :
      count consumed_tokens_attribute new ≡ count consumed_tokens_attribute old +ℤ consumed

pub hold-Moves :
    (ttl budget : ℕ) (item : Item)
    → Moves
        (some item)
        (some (apply_clauses (hold_clauses ttl budget) item))
        (pos budget)
        (pos budget)
        (pos 0)
unfolding text_eq
hold-Moves ttl budget item = record {
  total_moves = rw (count-add, count-add, count-set, integer-to_string) refl;
  reserved_moves = rw (count-add, count-add, count-set, integer-to_string) refl;
  consumed_moves = rw (count-add, count-add, count-set) (omega int_laws);
}

pub settle-Moves :
    (total reserved : ℤ) (consumed : ℕ) (item : Item)
    → Moves
        (some item)
        (some (apply_clauses (settle_clauses total reserved consumed) item))
        total
        reserved
        (pos consumed)
unfolding text_eq
settle-Moves total reserved consumed item = record {
  total_moves = rw (count-add, count-add, count-add, integer-int_to_string) refl;
  reserved_moves = rw (count-add, count-add, count-add, integer-int_to_string) refl;
  consumed_moves = rw (count-add, count-add, count-add, integer-to_string) refl;
}

pub usage-Moves :
    (ttl tokens : ℕ) (item : Item)
    → Moves
        (some item)
        (some (apply_clauses (usage_clauses ttl tokens) item))
        (pos tokens)
        (pos 0)
        (pos tokens)
unfolding text_eq
usage-Moves ttl tokens item = record {
  total_moves = rw (count-add, count-add, count-set, integer-to_string) refl;
  reserved_moves = rw (count-add, count-add, count-set) (omega int_laws);
  consumed_moves = rw (count-add, count-add, count-set, integer-to_string) refl;
}

-- A missing item counts as one that has its key alone.
pub base-Moves :
    (user window : Text) (old new : Option Item) (total reserved consumed : ℤ)
    → Moves (some (unwrap_or old (usage_key user window))) new total reserved consumed
    → Moves old new total reserved consumed
unfolding text_eq
base-Moves user window old new total reserved consumed m = record {
  total_moves = rw (← count-base token_count_attribute user window old refl refl) m.total_moves;
  reserved_moves =
      rw (← count-base reserved_tokens_attribute user window old refl refl) m.reserved_moves;
  consumed_moves =
      rw (← count-base consumed_tokens_attribute user window old refl refl) m.consumed_moves;
}

-- The total of a window is what was consumed and what is held.
abbrev pub IsBalanced : Option Item → Type 0
IsBalanced item =
    count token_count_attribute item
    ≡ count reserved_tokens_attribute item +ℤ count consumed_tokens_attribute item

pub Moves-IsBalanced :
    {old new : Option Item} {total reserved consumed : ℤ}
    → Moves old new total reserved consumed
    → total ≡ reserved +ℤ consumed
    → IsBalanced old
    → IsBalanced new
Moves-IsBalanced {old} {reserved = r} {consumed = c} m e b =
    rw (m.total_moves, m.reserved_moves, m.consumed_moves, e, b)
      (+ℤ_interchange (count reserved_tokens_attribute old) (count consumed_tokens_attribute old) r
        c)
