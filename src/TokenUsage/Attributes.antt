-- ===== src/TokenUsage/Attributes.antt =====
-- The counts of a usage item, as they are written and as they are read.
use internal_ai_gateway.Base.{ℕ, ◌≤◌, ◌≡◌, refl, ok, u64_max}
use internal_ai_gateway.Base.Decimal.{to_string}
use internal_ai_gateway.Base.Decimal.Laws.{parse_uint-to_string}
use internal_ai_gateway.Services.{n}
use internal_ai_gateway.TokenUsage.{token_count_from_attribute}

-- Every count of 64 bits is read back from the attribute that is written of it.
pub token_count_from_attribute-to_string :
    (k : ℕ) → k ≤ u64_max → token_count_from_attribute (n (to_string k)) ≡ ok k
unfolding token_count_from_attribute
token_count_from_attribute-to_string k h = rw (parse_uint-to_string u64_max k h) refl
