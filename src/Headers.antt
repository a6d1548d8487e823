-- ===== src/Headers.antt =====
-- services/proxy/src/anthropic.rs and services/proxy/src/openai.rs: which headers of a request go to the
-- provider and which headers of its response go to the client. A `HeaderMap` is the list of its entries
-- in the order of its iteration, whose names are lowercase; a header's value is opaque, and its `to_str`
-- and what counts as white space are parameters.
pub mod Laws
use internal_ai_gateway.Base.{
  ℕ, Bool, true, false, not, ◌&&◌, ◌||◌, List, [], ◌∷◌, ◌++◌, map, Option, none, some, Text, codes,
  is_empty, any, filter, filter_map, flat_map, text_eq, to_ascii_lowercase, eq_ignore_ascii_case,
  trim, split,
}

abbrev pub HeaderMap : Type 0 → Type 0
HeaderMap V = List (Text × V)

unfoldable pub is_hop_by_hop_header : Text → Bool
is_hop_by_hop_header name =
    text_eq name (codes "connection")
    || text_eq name (codes "proxy-authenticate")
    || text_eq name (codes "proxy-authorization")
    || text_eq name (codes "te")
    || text_eq name (codes "trailer")
    || text_eq name (codes "transfer-encoding")
    || text_eq name (codes "upgrade")

-- `ConnectionHeaderNames`, by its one field.
abbrev pub ConnectionHeaderNames : Type 0
ConnectionHeaderNames = List Text

unfoldable pub contains : ConnectionHeaderNames → Text → Bool
contains names name = any (λ connection_header. eq_ignore_ascii_case name connection_header) names

unfoldable pub should_forward_request_header : Text → ConnectionHeaderNames → Bool
unfolding is_hop_by_hop_header contains
should_forward_request_header name connection_headers =
    not (is_hop_by_hop_header name)
    && not (contains connection_headers name)
    && not (text_eq name (codes "host"))
    && not (text_eq name (codes "content-length"))
    && not (eq_ignore_ascii_case name (codes "x-api-key"))

unfoldable pub should_forward_openai_request_header : Text → ConnectionHeaderNames → Bool
unfolding should_forward_request_header
should_forward_openai_request_header name connection_headers =
    should_forward_request_header name connection_headers
    && not (text_eq name (codes "authorization"))
    && not (text_eq name (codes "accept-encoding"))
    && not (text_eq name (codes "openai-organization"))
    && not (text_eq name (codes "openai-project"))

unfoldable pub should_forward_response_header : Text → ConnectionHeaderNames → Bool
unfolding is_hop_by_hop_header contains
should_forward_response_header name connection_headers =
    not (is_hop_by_hop_header name)
    && not (contains connection_headers name)
    && not (text_eq name (codes "content-length"))

-- `get_all`, for the values of a name.
abbrev pub value_of : {V : Type 0} → Text → Text × V → Option V
value_of name (entry_name, value) = elim (text_eq entry_name name) [
  | true ↦ some value
  | false ↦ none
]

module _ {V : Type 0} (to_str : V → Option Text) (is_whitespace : ℕ → Bool) where
  -- `ConnectionHeaderNames::from_headers`.
  unfoldable pub from_headers : HeaderMap V → ConnectionHeaderNames
  from_headers headers = map to_ascii_lowercase (
      filter (λ value. not (is_empty value))
        (map (trim is_whitespace) (
          flat_map (split 44)
            (filter_map to_str (filter_map (value_of (codes "connection")) headers)))))

  -- The loops over the headers of a request, and `copy_response_headers`: the entries that a test on the
  -- name lets through.
  unfoldable pub forwarded : (Text → ConnectionHeaderNames → Bool) → HeaderMap V → HeaderMap V
  unfolding from_headers
  forwarded should_forward headers =
      let connection_headers = from_headers headers in
      filter (λ (name, _). should_forward name connection_headers) headers

  unfoldable pub copy_response_headers : HeaderMap V → HeaderMap V → HeaderMap V
  unfolding forwarded should_forward_response_header
  copy_response_headers provider_headers response_headers =
      response_headers ++ forwarded should_forward_response_header provider_headers
