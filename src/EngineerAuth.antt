-- ===== src/EngineerAuth.antt =====
-- services/proxy/src/engineer_auth.rs: the engineer behind an API key's hash.
use internal_ai_gateway.Base.{
  ℕ, Bool, List, [], ◌∷◌, Option, none, some, Text, codes, lookup, is_empty, u64_max, if◌then◌else◌,
  Result, ok, err, ◌>>=◌, map_ok,
}
use internal_ai_gateway.Base.Decimal.{parse_uint}
use internal_ai_gateway.Base.Actions
use internal_ai_gateway.Base.Actions.{Action, pure, map_err_of}
use internal_ai_gateway.Services.{AttributeValue, n, s, bool, Item, Services}

pub record AuthenticatedEngineer : Type 0 where
  pub daily_token_limit : Option ℕ
  pub enabled : Bool
  pub user_id : Text
  pub weekly_token_limit : Option ℕ

pub data EngineerAuthError : Type 0 where
  query_failed duplicate_api_key_hash : EngineerAuthError
  invalid_engineer_item : Text → EngineerAuthError

abbrev pub api_key_hash_attribute : Text
api_key_hash_attribute = codes "api_key_hash"

abbrev pub daily_token_limit_attribute : Text
daily_token_limit_attribute = codes "daily_token_limit"

abbrev pub enabled_attribute : Text
enabled_attribute = codes "enabled"

abbrev pub user_id_attribute : Text
user_id_attribute = codes "user_id"

abbrev pub weekly_token_limit_attribute : Text
weekly_token_limit_attribute = codes "weekly_token_limit"

abbrev bool_of : Text → Option AttributeValue → Result EngineerAuthError Bool
bool_of name (some (bool value)) = ok value
bool_of name _ = err (invalid_engineer_item name)

unfoldable pub required_bool_attribute : Item → Text → Result EngineerAuthError Bool
required_bool_attribute item name = bool_of name (lookup name item)

abbrev string_of : Text → Option AttributeValue → Result EngineerAuthError Text
string_of name (some (s value)) =
    if is_empty value then err (invalid_engineer_item name) else ok value
string_of name _ = err (invalid_engineer_item name)

unfoldable pub required_string_attribute : Item → Text → Result EngineerAuthError Text
required_string_attribute item name = string_of name (lookup name item)

abbrev parsed : Text → Option ℕ → Result EngineerAuthError (Option ℕ)
parsed name (some value) = ok (some value)
parsed name none = err (invalid_engineer_item name)

abbrev number_of : Text → Option AttributeValue → Result EngineerAuthError (Option ℕ)
number_of name none = ok none
number_of name (some (n value)) = parsed name (parse_uint u64_max value)
number_of name (some _) = err (invalid_engineer_item name)

unfoldable pub optional_number_attribute : Item → Text → Result EngineerAuthError (Option ℕ)
optional_number_attribute item name = number_of name (lookup name item)

unfoldable pub authenticated_engineer_from_item :
    Item → Result EngineerAuthError AuthenticatedEngineer
unfolding required_bool_attribute required_string_attribute optional_number_attribute
authenticated_engineer_from_item item = do
  daily_token_limit ← optional_number_attribute item daily_token_limit_attribute
  enabled ← required_bool_attribute item enabled_attribute
  user_id ← required_string_attribute item user_id_attribute
  weekly_token_limit ← optional_number_attribute item weekly_token_limit_attribute
  ok (record {
    daily_token_limit = daily_token_limit;
    enabled = enabled;
    user_id = user_id;
    weekly_token_limit = weekly_token_limit;
  })

pub record EngineerAuth : Type 0 where
  pub engineers_table_name : Text
  pub engineers_api_key_index_name : Text

-- `items.first().map(…).transpose()`, behind the test for a second item.
abbrev pub engineer_of_items : List Item → Result EngineerAuthError (Option AuthenticatedEngineer)
engineer_of_items [] = ok none
engineer_of_items (item ∷ []) = map_ok some (authenticated_engineer_from_item item)
engineer_of_items (item ∷ (second ∷ items)) = err duplicate_api_key_hash

unfoldable pub find_engineer_by_api_key_hash :
    (sv : Services)
    → EngineerAuth
    → Text
    → Action sv.State EngineerAuthError (Option AuthenticatedEngineer)
find_engineer_by_api_key_hash sv auth api_key_hash =
    Actions.◌>>=◌
      (map_err_of (λ _. query_failed)
        (sv.query auth.engineers_table_name auth.engineers_api_key_index_name
          (api_key_hash_attribute, s api_key_hash) 2))
      λ items. pure (engineer_of_items items)
