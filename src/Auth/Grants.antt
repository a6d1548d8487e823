-- ===== src/Auth/Grants.antt =====
-- Who is let in: only an enabled engineer, behind the one item that the hash of a well-formed key finds.
use internal_ai_gateway.Base.{
  ℕ, ◌≡◌, refl, ap, sym, ◌∙◌, Bool, true, false, not, List, [], ◌∷◌, Option, none, some, Text,
  codes, any, starts_with, if◌then◌else◌, Result, ok, err, Result-cases, inl, inr, arith,
}
use internal_ai_gateway.Base.Actions.{◌>>=◌}
use internal_ai_gateway.Services.{Services, s, Item}
use internal_ai_gateway.EngineerAuth.{
  AuthenticatedEngineer, EngineerAuth, find_engineer_by_api_key_hash, engineer_of_items,
  authenticated_engineer_from_item, api_key_hash_attribute,
}
use internal_ai_gateway.Auth.{
  AuthError, disabled_engineer, HeaderValue, ApiKeyHasher, read_api_key, validate_api_key,
  authenticate_headers,
}

-- A key that is read is the header's value, begins with the prefix and has no white space.
pub read_api_key_ok :
    (is_whitespace : ℕ → Bool) (header : Option HeaderValue) (key : Text)
    → read_api_key is_whitespace header ≡ ok key
    → (header ≡ some (some key))
      × (starts_with (codes "iag_") key ≡ true)
      × (any is_whitespace key ≡ false)
unfolding read_api_key validate_api_key
read_api_key_ok is_whitespace none key h = cc
read_api_key_ok is_whitespace (some none) key h = cc
read_api_key_ok is_whitespace (some (some value)) key h = ground arith

found_one :
    (items : List Item) (engineer : AuthenticatedEngineer)
    → engineer_of_items items ≡ ok (some engineer)
    → (item : Item) × (items ≡ item ∷ []) × (authenticated_engineer_from_item item ≡ ok engineer)
found_one [] engineer h = cc
found_one (item ∷ []) engineer h = (item, refl, ground arith)
found_one (item ∷ second ∷ items) engineer h = cc

enabled_grants :
    (b : Bool) (x engineer : AuthenticatedEngineer)
    → Path
        (Result AuthError AuthenticatedEngineer)
        (if not b then err disabled_engineer else ok x)
        (ok engineer)
    → (b ≡ true) × (x ≡ engineer)
enabled_grants true x engineer h = (refl, cc)
enabled_grants false x engineer h = cc

-- An engineer is let in only with a well-formed key in the header, only if the query by the key's hash
-- found exactly one item and the engineer was read from it, and only if that engineer is enabled.
pub authenticate_headers_ok :
    (is_whitespace : ℕ → Bool) (sv : Services) (hash_api_key : ApiKeyHasher → Text → Text)
    (hasher : ApiKeyHasher) (auth : EngineerAuth) (header : Option HeaderValue) (a : sv.State)
    (engineer : AuthenticatedEngineer)
    → (authenticate_headers is_whitespace sv hash_api_key hasher auth header a).0 ≡ ok engineer
    → (key : Text) × (item : Item) × (header ≡ some (some key))
      × (starts_with (codes "iag_") key ≡ true)
      × (any is_whitespace key ≡ false)
      × ((sv.query auth.engineers_table_name auth.engineers_api_key_index_name
            (api_key_hash_attribute, s (hash_api_key hasher key))
            2
            a).0
          ≡ ok (item ∷ []))
      × (authenticated_engineer_from_item item ≡ ok engineer)
      × (engineer.enabled ≡ true)
unfolding authenticate_headers find_engineer_by_api_key_hash
authenticate_headers_ok is_whitespace sv hash_api_key hasher auth header a engineer =
    elim (Result-cases (read_api_key is_whitespace header)) [
      | inr (e, q) ↦ rw (q, authenticate_headers, ◌>>=◌) (λ h. cc)
      | inl (key, q) ↦
          elim (Result-cases
            (sv.query auth.engineers_table_name auth.engineers_api_key_index_name
              (api_key_hash_attribute, s (hash_api_key hasher key)) 2 a).0) [
                | inr (e, c) ↦
                    rw (q, c, authenticate_headers, find_engineer_by_api_key_hash, ◌>>=◌) (λ h. cc)
                | inl (items, c) ↦ elim (Result-cases (engineer_of_items items)) [
                  | inr (e, d) ↦
                      rw (q, c, d, authenticate_headers, find_engineer_by_api_key_hash, ◌>>=◌)
                        (λ h. cc)
                  | inl (none, d) ↦
                      rw (q, c, d, authenticate_headers, find_engineer_by_api_key_hash, ◌>>=◌)
                        (λ h. cc)
                  | inl (some x, d) ↦
                      rw (q, c, d, authenticate_headers, find_engineer_by_api_key_hash, ◌>>=◌)
                        (λ h.
                          let (e, p, w) = read_api_key_ok is_whitespace header key q in
                          let (item, one, from) = found_one items x d in
                          let (b, same) = enabled_grants x.enabled x engineer h in
                          (
                            key,
                            item,
                            e,
                            p,
                            w,
                            c ∙ ap ok one,
                            from ∙ ap ok same,
                            ap (λ y. y.enabled) (sym same) ∙ b,
                          ))
                ]
              ]
    ]
