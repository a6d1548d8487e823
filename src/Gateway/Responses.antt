-- ===== src/Gateway/Responses.antt =====
-- services/proxy/src/anthropic.rs and services/proxy/src/openai.rs: the status and the message with which an
-- error answers. How an error is displayed is a parameter.
use mathlib.Core.List.Memᴰ.{Memᴰ, head, tail}
use internal_ai_gateway.Base.{
  ℕ, ◌≡◌, ◌≤◌, ◌<◌, ◌⊎◌, inl, inr, refl, arith, Bool, true, ◌||◌, List, [], ◌∷◌, Text, codes,
  if◌then◌else◌, Bool-cases,
}
use internal_ai_gateway.Auth.{
  missing_api_key, invalid_api_key_format, invalid_credentials, disabled_engineer, lookup_failed,
}
use internal_ai_gateway.RateLimit.{rate_limit_exceeded, update_failed, clock_failed}
use internal_ai_gateway.TokenReservation.Writes.{
  invalid_budget, limit_exceeded, write_failed, build_write_failed, unreachable, usage,
  queue_failed,
}
use internal_ai_gateway.Gateway.{
  provider_request_failed, response_build_failed, request_preparation, token_reservation,
  RouteError, auth, rate_limit, too_many_active_streams, proxy,
}

-- The tests of `AnthropicRequestError` and `OpenAiRequestTransformError`.
pub record PreparationTests (E : Type 0) : Type 0 where
  pub is_request_too_large : E → Bool
  pub is_upload_timeout : E → Bool
  pub is_client_error : E → Bool

module _ {E : Type 0} (tests : PreparationTests E) (to_string : RouteError E → Text)
    (request_failed : Text) where
  -- A failure inside, which the answer does not tell.
  unfoldable pub into_response : RouteError E → ℕ × Text
  into_response (auth (lookup_failed e)) = (503, codes "authentication is temporarily unavailable")
  into_response (auth e) = (401, to_string (auth e))
  into_response (rate_limit rate_limit_exceeded) = (429, to_string (rate_limit rate_limit_exceeded))
  into_response (rate_limit e) = (503, codes "rate limit check is temporarily unavailable")
  into_response (proxy (token_reservation limit_exceeded)) =
      (402, to_string (proxy (token_reservation limit_exceeded)))
  into_response (proxy (token_reservation e)) =
      (503, codes "token reservation is temporarily unavailable")
  into_response too_many_active_streams = (429, codes "too many active streams")
  into_response (proxy (request_preparation e)) =
      if tests.is_request_too_large e
      then (413, to_string (proxy (request_preparation e)))
      else if tests.is_upload_timeout e
      then (408, to_string (proxy (request_preparation e)))
      else if tests.is_client_error e
      then (400, to_string (proxy (request_preparation e)))
      else (502, request_failed)
  into_response (proxy provider_request_failed) = (502, request_failed)
  into_response (proxy response_build_failed) = (502, request_failed)

  -- The errors that refuse a request: for its key, its body or its upload, because a limit of its engineer's is
  -- reached, or because all of the gateway's streams are taken.
  abbrev pub IsRefusal : RouteError E → Type 0
  IsRefusal (auth (lookup_failed e)) = ⊥
  IsRefusal (auth e) = Unit
  IsRefusal (rate_limit e) = e ≡ rate_limit_exceeded
  IsRefusal too_many_active_streams = Unit
  IsRefusal (proxy (token_reservation e)) = e ≡ limit_exceeded
  IsRefusal (proxy (request_preparation e)) =
      (tests.is_request_too_large e || tests.is_upload_timeout e || tests.is_client_error e) ≡ true
  IsRefusal (proxy provider_request_failed) = ⊥
  IsRefusal (proxy response_build_failed) = ⊥

  abbrev pub general_messages : List Text
  general_messages =
      codes "authentication is temporarily unavailable"
      ∷ codes "rate limit check is temporarily unavailable"
      ∷ codes "token reservation is temporarily unavailable"
      ∷ request_failed
      ∷ []

  -- A status of a refusal, and one of a failure with a message that says nothing of the error.
  abbrev pub IsBlamed : ℕ × Text → Type 0
  IsBlamed (status, message) = (400 ≤ status) × (status < 500)

  abbrev pub IsConcealed : ℕ × Text → Type 0
  IsConcealed (status, message) = (500 ≤ status) × (status < 600) × Memᴰ message general_messages

  prepared-IsBlamed :
      (e : E)
      → (IsRefusal (proxy (request_preparation e))
          × IsBlamed (into_response (proxy (request_preparation e))))
        ⊎ (¬ IsRefusal (proxy (request_preparation e))
            × IsConcealed (into_response (proxy (request_preparation e))))
  unfolding into_response
  prepared-IsBlamed e = elim (Bool-cases (tests.is_request_too_large e)) [
    | inl q ↦ rw (q, into_response) (inl (refl, (omega arith, omega arith)))
    | inr q ↦ elim (Bool-cases (tests.is_upload_timeout e)) [
      | inl r ↦ rw (q, r, into_response) (inl (refl, (omega arith, omega arith)))
      | inr r ↦ elim (Bool-cases (tests.is_client_error e)) [
        | inl t ↦ rw (q, r, t, into_response) (inl (refl, (omega arith, omega arith)))
        | inr t ↦
            rw (q, r, t, into_response)
              (inr (λ h. cc, (omega arith, omega arith, tail (tail (tail (head refl))))))
      ]
    ]
  ]

  -- An error answers with a status from 400 to 499 exactly if it refuses the request, for what the request
  -- is or for a limit. Every other one answers with a status from 500 to 599 and one of four messages that do not depend on the
  -- error.
  pub into_response-IsBlamed :
      (e : RouteError E)
      → (IsRefusal e × IsBlamed (into_response e)) ⊎ (¬ IsRefusal e × IsConcealed (into_response e))
  unfolding into_response
  into_response-IsBlamed (auth (lookup_failed e)) =
      inr (λ h. h, (omega arith, omega arith, head refl))
  into_response-IsBlamed (auth missing_api_key) = inl (tt, (omega arith, omega arith))
  into_response-IsBlamed (auth invalid_api_key_format) = inl (tt, (omega arith, omega arith))
  into_response-IsBlamed (auth invalid_credentials) = inl (tt, (omega arith, omega arith))
  into_response-IsBlamed (auth disabled_engineer) = inl (tt, (omega arith, omega arith))
  into_response-IsBlamed (rate_limit rate_limit_exceeded) = inl (refl, (omega arith, omega arith))
  into_response-IsBlamed (rate_limit update_failed) =
      inr (λ h. cc, (omega arith, omega arith, tail (head refl)))
  into_response-IsBlamed (rate_limit clock_failed) =
      inr (λ h. cc, (omega arith, omega arith, tail (head refl)))
  into_response-IsBlamed too_many_active_streams = inl (tt, (omega arith, omega arith))
  into_response-IsBlamed (proxy (token_reservation limit_exceeded)) =
      inl (refl, (omega arith, omega arith))
  into_response-IsBlamed (proxy (token_reservation invalid_budget)) =
      inr (λ h. cc, (omega arith, omega arith, tail (tail (head refl))))
  into_response-IsBlamed (proxy (token_reservation write_failed)) =
      inr (λ h. cc, (omega arith, omega arith, tail (tail (head refl))))
  into_response-IsBlamed (proxy (token_reservation build_write_failed)) =
      inr (λ h. cc, (omega arith, omega arith, tail (tail (head refl))))
  into_response-IsBlamed (proxy (token_reservation unreachable)) =
      inr (λ h. cc, (omega arith, omega arith, tail (tail (head refl))))
  into_response-IsBlamed (proxy (token_reservation (usage e))) =
      inr (λ h. cc, (omega arith, omega arith, tail (tail (head refl))))
  into_response-IsBlamed (proxy (token_reservation (queue_failed e))) =
      inr (λ h. cc, (omega arith, omega arith, tail (tail (head refl))))
  into_response-IsBlamed (proxy (request_preparation e)) = prepared-IsBlamed e
  into_response-IsBlamed (proxy provider_request_failed) =
      inr (λ h. h, (omega arith, omega arith, tail (tail (tail (head refl)))))
  into_response-IsBlamed (proxy response_build_failed) =
      inr (λ h. h, (omega arith, omega arith, tail (tail (tail (head refl)))))
