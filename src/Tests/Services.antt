-- ===== src/Tests/Services.antt =====
-- Runs of the theorems on the rate limiter and on authentication.
use internal_ai_gateway.Base.Decimal.{parse_uint}
use internal_ai_gateway.EngineerAuth.{find_engineer_by_api_key_hash}
use internal_ai_gateway.Auth.{read_api_key}
use internal_ai_gateway.Base.Decimal.{int_to_string}
use internal_ai_gateway.Base.Decimal.{integer}
use internal_ai_gateway.Base.{insert}
use internal_ai_gateway.Base.Decimal.{to_string}
use internal_ai_gateway.Base.{text_eq}
use internal_ai_gateway.Base.{lookup}
use internal_ai_gateway.RateLimit.{count_update}
use internal_ai_gateway.RateLimit.{record_at}
use internal_ai_gateway.RateLimit.{current_epoch_seconds}
use internal_ai_gateway.Base.{
  ℕ, ◌≡◌, refl, true, false, [], ◌∷◌, some, Text, ok, codes, any, starts_with, ◌==◌,
}
use internal_ai_gateway.Base.Int.{pos, ◌+ℤ◌, ◌≤ℤ◌}
use internal_ai_gateway.Services.{n, s, bool, Item, Services}
use internal_ai_gateway.Services.Documented.{Same}
use internal_ai_gateway.Services.Memory.{Memory, memory}
use internal_ai_gateway.Services.Memory.Laws.{documented}
use internal_ai_gateway.Tests.Inputs.{ann, empty}
use internal_ai_gateway.RateLimit.{new, check_and_record, window_start_epoch_seconds}
use internal_ai_gateway.RateLimit.Counting.{check_and_record_ok, check_and_record_exceeded, counted}
use internal_ai_gateway.EngineerAuth.{authenticated_engineer_from_item, api_key_hash_attribute}
use internal_ai_gateway.Auth.{authenticate_headers, ApiKeyHasher}
use internal_ai_gateway.Auth.Grants.{authenticate_headers_ok}

-- One request a minute.
abbrev once_state : Memory
once_state = (check_and_record memory (new (codes "limits") 1 60) (codes "ann") empty).1

check_and_record_ok_example :
    (now : ℕ) × (empty.clock ≡ some now)
    × (86400 ≡ window_start_epoch_seconds now 60)
    × (counted memory documented (codes "limits") (codes "ann") 1 60 now once_state
        ≡ counted memory documented (codes "limits") (codes "ann") 1 60 now empty +ℤ pos 1)
    × (counted memory documented (codes "limits") (codes "ann") 1 60 now once_state ≤ℤ pos 1)
unfolding check_and_record current_epoch_seconds record_at count_update lookup new
    window_start_epoch_seconds
check_and_record_ok_example =
    check_and_record_ok memory documented (codes "limits") (codes "ann") 1 60 empty
      (record { limit = 1; window_start_epoch_seconds = 86400 }) refl

check_and_record_exceeded_example :
    (now : ℕ) × (empty.clock ≡ some now)
    × Same documented.view once_state
        (check_and_record memory (new (codes "limits") 1 60) (codes "ann") once_state).1
    × (pos 1 ≤ℤ counted memory documented (codes "limits") (codes "ann") 1 60 now once_state)
unfolding check_and_record current_epoch_seconds record_at count_update lookup text_eq new to_string
    window_start_epoch_seconds insert integer int_to_string ◌+ℤ◌
check_and_record_exceeded_example =
    check_and_record_exceeded memory documented (codes "limits") (codes "ann") 1 60 once_state refl

-- A table with one engineer, whatever the key.
abbrev ann_item : Item
ann_item =
    (codes "user_id", s (codes "ann"))
    ∷ (codes "enabled", bool true)
    ∷ (codes "daily_token_limit", n (codes "10"))
    ∷ []

abbrev pub directory : Services
directory = record memory { query = λ table index key limit a. (ok (ann_item ∷ []), a) }

abbrev pub hash : ApiKeyHasher → Text → Text
hash hasher key = key

authenticate_headers_ok_example :
    (key : Text) × (item : Item) × (some (some (codes "iag_1")) ≡ some (some key))
    × (starts_with (codes "iag_") key ≡ true)
    × (any (λ c. c == 32) key ≡ false)
    × ((directory.query
          (codes "engineers")
          (codes "by_hash")
          (api_key_hash_attribute, s (hash (record { secret = [] }) key))
          2
          empty).0
        ≡ ok (item ∷ []))
    × (authenticated_engineer_from_item item ≡ ok ann)
    × (ann.enabled ≡ true)
unfolding authenticate_headers read_api_key starts_with find_engineer_by_api_key_hash
    authenticated_engineer_from_item lookup text_eq parse_uint
authenticate_headers_ok_example =
    authenticate_headers_ok (λ c. c == 32) directory hash (record { secret = [] })
      (record {
        engineers_table_name = codes "engineers";
        engineers_api_key_index_name = codes "by_hash";
      })
      (some (some (codes "iag_1"))) empty ann refl
