-- ===== src/Auth.antt =====
-- services/proxy/src/auth.rs and services/proxy/src/api_key.rs: from a request's headers to an enabled
-- engineer. The keyed hash of an API key and what counts as white space are parameters.
pub mod Grants
use internal_ai_gateway.Base.{
  ℕ, Bool, true, false, not, ◌||◌, List, Option, none, some, Text, codes, is_empty, any,
  starts_with, if◌then◌else◌, Result, ok, err, ◌>>=◌, ◌>>◌, ok_or, fail_if,
}
use internal_ai_gateway.Base.Actions
use internal_ai_gateway.Base.Actions.{Action, pure, map_err_of}
use internal_ai_gateway.Services.{Services}
use internal_ai_gateway.EngineerAuth.{
  AuthenticatedEngineer, EngineerAuth, EngineerAuthError, find_engineer_by_api_key_hash,
}

pub data AuthError : Type 0 where
  missing_api_key invalid_api_key_format invalid_credentials disabled_engineer : AuthError
  lookup_failed : EngineerAuthError → AuthError

pub data ApiKeySecretError : Type 0 where
  fetch_failed missing_secret_string empty_secret_string : ApiKeySecretError

-- A header's value: its text, if `to_str` accepts it.
abbrev pub HeaderValue : Type 0
HeaderValue = Option Text

-- `ApiKeyHasher`: the secret of the keyed hash.
pub record ApiKeyHasher : Type 0 where
  pub secret : Text

unfoldable pub load_api_key_hasher :
    (sv : Services) → Text → Action sv.State ApiKeySecretError ApiKeyHasher
load_api_key_hasher sv secret_arn =
    Actions.◌>>=◌ (map_err_of (λ _. fetch_failed) (sv.get_secret_value secret_arn)) λ output.
      pure (do
        secret ← ok_or output missing_secret_string
        fail_if (is_empty secret) empty_secret_string
        ok (record { secret = secret }))

module _ (is_whitespace : ℕ → Bool) where
  unfoldable pub validate_api_key : Text → Result AuthError (Unit {0})
  validate_api_key api_key = do
    fail_if (is_empty api_key || not (starts_with (codes "iag_") api_key)) invalid_api_key_format
    fail_if (any is_whitespace api_key) invalid_api_key_format

  -- The argument is the value of the header `x-api-key`, if there is one.
  unfoldable pub read_api_key : Option HeaderValue → Result AuthError Text
  unfolding validate_api_key
  read_api_key header = do
    value ← ok_or header missing_api_key
    api_key ← ok_or value invalid_api_key_format
    validate_api_key api_key
    ok api_key

  abbrev pub enabled_engineer : AuthenticatedEngineer → Result AuthError AuthenticatedEngineer
  enabled_engineer engineer = if not engineer.enabled then err disabled_engineer else ok engineer

  unfoldable pub authenticate_headers :
      (sv : Services) (hash_api_key : ApiKeyHasher → Text → Text)
      → ApiKeyHasher
      → EngineerAuth
      → Option HeaderValue
      → Action sv.State AuthError AuthenticatedEngineer
  authenticate_headers sv hash_api_key hasher auth header =
      Actions.◌>>=◌ (pure (read_api_key header)) λ api_key.
        Actions.◌>>=◌
          (map_err_of lookup_failed
            (find_engineer_by_api_key_hash sv auth (hash_api_key hasher api_key)))
          λ found. pure (do engineer ← ok_or found invalid_credentials; enabled_engineer engineer)
