-- ===== src/Tests/Requests.antt =====
-- Runs of the theorems on the reading of requests.
use internal_ai_gateway.OpenAiRequest.{inspect_byte}
use internal_ai_gateway.Base.{
  ℕ, ◌+◌, ◌*◌, ◌≡◌, ◌≤◌, ◌<◌, refl, List, [], ◌∷◌, ◌++◌, Result, ok, err, codes, length, u64_max,
  arith,
}
use internal_ai_gateway.OpenAiRequest.{
  calculate_token_budget, token_budget_overflow, image_input_token_reserve, inspect, new_reader,
  max_json_nesting_depth, invalid_data, IoError, file_too_large, LimitedSpoolWriter, write_spool,
}
use internal_ai_gateway.OpenAiRequest.Limits.{
  calculate_token_budget_lem, IsBounded, inspect-IsBounded, opening, inspect-opening,
  write_spool_bounded,
}

calculate_token_budget_lem_example :
    (100 + 2 * image_input_token_reserve + 50 ≤ u64_max
      → calculate_token_budget 100 50 2 ≡ ok (100 + 2 * image_input_token_reserve + 50))
    × (u64_max < 100 + 2 * image_input_token_reserve + 50
        → calculate_token_budget 100 50 2 ≡ err token_budget_overflow)
calculate_token_budget_lem_example = calculate_token_budget_lem 100 50 2

new_reader-IsBounded : IsBounded new_reader
unfolding new_reader
new_reader-IsBounded = record { depth = omega arith; key = omega arith }

inspect-IsBounded_example : IsBounded (inspect (codes "{\"a\": [1") new_reader).1
unfolding inspect inspect_byte new_reader
inspect-IsBounded_example =
    inspect-IsBounded (codes "{\"a\": [1") new_reader new_reader-IsBounded refl

inspect-opening_example :
    (129 ≤ max_json_nesting_depth → (inspect (opening 129) new_reader).0 ≡ ok tt)
    × (max_json_nesting_depth < 129 → (inspect (opening 129) new_reader).0 ≡ err invalid_data)
inspect-opening_example = inspect-opening 129

-- A writer that keeps what it is given.
abbrev keep : List ℕ → List ℕ → Result IoError ℕ × List ℕ
keep input file = (ok (length input), file ++ input)

keep-short : (input file : List ℕ) (n : ℕ) → (keep input file).0 ≡ ok n → n ≤ length input
keep-short input file n e = let q : length input ≡ n = cc in omega arith

abbrev spool_writer : LimitedSpoolWriter (List ℕ)
spool_writer = record { inner = []; limit = 4; written = 2 }

write_spool_bounded_example :
    ((write_spool keep (1 ∷ []) spool_writer).1.written ≤ 4)
    × ((n : ℕ)
        → (write_spool keep (1 ∷ []) spool_writer).0 ≡ ok n
        → (write_spool keep (1 ∷ []) spool_writer).1.written ≡ 2 + n)
    × (4 < 2 + 1 → write_spool keep (1 ∷ []) spool_writer ≡ (err file_too_large, spool_writer))
write_spool_bounded_example =
    write_spool_bounded keep keep-short (1 ∷ []) spool_writer (omega arith) (omega arith)
