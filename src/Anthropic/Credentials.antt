-- ===== src/Anthropic/Credentials.antt =====
-- The provider's key goes to the provider, and the client's key does not.
use mathlib.Core.List.Memᴰ.{Memᴰ, head, tail}
use mathlib.Core.List.Memᴰ as Member
use internal_ai_gateway.Base.{
  ℕ, ◌≡◌, ◌≢◌, refl, ap, inl, inr, Bool, true, List, ◌++◌, Text, codes, to_ascii_lowercase,
  text_eq_iff, eq_ignore_ascii_case, arith,
}
use internal_ai_gateway.Base.Members.{mem-filter}
use internal_ai_gateway.Base.Actions.{Action}
use internal_ai_gateway.Services.{Services}
use internal_ai_gateway.Formats.{Formats}
use internal_ai_gateway.Headers.{HeaderMap, from_headers, forwarded, should_forward_request_header}
use internal_ai_gateway.Headers.Laws.{forwarded_to_openai_iff}
use internal_ai_gateway.Gateway.{Http, AppState, provider_request}
use internal_ai_gateway.Anthropic.{AnthropicProxy, anthropic_provider}
use internal_ai_gateway.OpenAi.{OpenAiProxy, openai_provider}

never_forwarded :
    (name : Text) (names : List Text)
    → to_ascii_lowercase name ≡ codes "x-api-key"
    → should_forward_request_header name names ≢ true
unfolding should_forward_request_header to_ascii_lowercase
never_forwarded name names k h =
    let t : eq_ignore_ascii_case name (codes "x-api-key") ≡ true =
      (text_eq_iff (to_ascii_lowercase name) (codes "x-api-key")).1 k in
    ground arith

module _ {V B E : Type 0} (sv : Services) (http : Http V sv.State) (app : AppState)
    (f : Formats) where
  -- Whatever headers a client sends, the only key in the request to Anthropic, under its name in any case,
  -- is the provider's.
  pub anthropic_key :
      (proxy : AnthropicProxy) (prepare : B → Action sv.State E (List ℕ × Bool × ℕ))
      (headers : HeaderMap V) (body : List ℕ) (name : Text) (value : V)
      → to_ascii_lowercase name ≡ codes "x-api-key"
      → Memᴰ
          (name, value)
          (provider_request sv http (anthropic_provider f proxy prepare) app headers body).headers
      → value ≡ http.header_value proxy.api_key
  unfolding anthropic_provider forwarded
  anthropic_key proxy prepare headers body name value k m = elim (Member.cases_cons m) [
    | inl e ↦ ap (λ x. x.1) e
    | inr n ↦ absurd (
        never_forwarded name (from_headers http.to_str http.is_whitespace headers) k
          ((mem-filter _ (name, value) headers).0 n).1)
  ]

  -- Whatever headers a client sends, the only authorization in the request to OpenAI is the provider's
  -- key.
  pub openai_key :
      (proxy : OpenAiProxy) (prepare : ℕ → B → Action sv.State E (List ℕ × Bool × ℕ))
      (headers : HeaderMap V) (body : List ℕ) (value : V)
      → Memᴰ
          (codes "authorization", value)
          (provider_request sv http (openai_provider f proxy prepare) app headers body).headers
      → value ≡ http.header_value (codes "Bearer " ++ proxy.api_key)
  unfolding openai_provider
  openai_key proxy prepare headers body value m = elim (Member.cases_cons m) [
    | inl e ↦ ap (λ x. x.1) e
    | inr n ↦
        let (_, held_back, _, _) =
          (forwarded_to_openai_iff http.to_str http.is_whitespace headers (codes "authorization")
              value).0
            n in
        absurd
          (held_back (tail (tail (tail (tail (tail (tail (tail (tail (tail (head refl)))))))))))
  ]
