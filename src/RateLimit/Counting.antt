-- ===== src/RateLimit/Counting.antt =====
-- The rate limiter counts the requests it lets through, and lets no more through than its limit.
use internal_ai_gateway.Base.{
  ℕ, ◌+◌, ◌*◌, ◌/◌, ◌%◌, ◌<◌, ◌≤◌, max, ◌≡◌, refl, ap, ◌∙◌, true, false, inl, inr, [], ◌∷◌, Option,
  none, some, Text, codes, Result, ok, err, text_eq, text_eq_refl, lookup, arith, Result-cases,
  Option-cases, unwrap_or, leb, not,
}
use native.Mathlib.Nat.{mod-lt, mod-le, div-add-mod, mul-mod_right}
use internal_ai_gateway.Base.Actions.{◌>>=◌}
use internal_ai_gateway.Base.Int.{ℤ, pos, ◌+ℤ◌, ◌≤ℤ◌, leb_ℤ, int_laws}
use internal_ai_gateway.Base.Decimal.{to_string, integer, parse_uint}
use internal_ai_gateway.Base.Decimal.Laws.{integer-to_string}
use internal_ai_gateway.Services.{
  Item, update, UpdateItemError, SdkError, service_error, dispatch_failure,
  conditional_check_failed_exception, unhandled, Services, Update,
}
use internal_ai_gateway.Services.Documented.{
  Documented, Same, Applied, count, contents, number, passes, write_item, applied, apply_clauses,
}
use internal_ai_gateway.Services.Counters.{count-add, count-set, write_item-update}
use internal_ai_gateway.RateLimit.{
  new, RateLimiter, RateLimitDecision, RateLimitError, rate_limit_exceeded, request_count_attribute,
  window_start_epoch_seconds, rate_limit_ttl_epoch_seconds, rate_limit_key, count_update,
  update_error, check_and_record, record_at, current_epoch_seconds,
}

-- The window that holds a time: it starts at a multiple of the window's length, at most that length
-- before the time.
window_start_bounds :
    (now window : ℕ)
    → (window_start_epoch_seconds now window ≤ now)
      × (now < window_start_epoch_seconds now window + max window 1)
      × (window_start_epoch_seconds now window % max window 1 ≡ 0)
unfolding window_start_epoch_seconds
window_start_bounds now window =
    let m = max window 1 in
    let at : window_start_epoch_seconds now window ≡ m * (now / m) =
      omega (arith, div-add-mod now m) in
    (
      omega (arith, mod-le now m),
      omega (arith, mod-lt now {m = m} (omega arith), mod-le now m),
      ap (λ x. x % m) at ∙ mul-mod_right m (now / m),
    )

lt-of-leb : (a b : ℕ) → not (leb a b) ≡ true → b < a
lt-of-leb a b h = ground arith

below : (x : ℤ) (limit : ℕ) → not (leb_ℤ (pos limit) x) ≡ true → x +ℤ pos 1 ≤ℤ pos limit
below x limit h = let k = lt-of-leb _ _ h in omega int_laws

reached : (x : ℤ) (limit : ℕ) → not (leb_ℤ (pos limit) x) ≡ false → pos limit ≤ℤ x
reached x limit h = ground (arith)

absent : (limit : ℕ) → 0 < limit → pos 0 +ℤ pos 1 ≤ℤ pos limit
unfolding ◌+ℤ◌
absent limit h = omega arith

-- The condition passes under the limit only, and fails at or above it only.
passes-below :
    (limiter : RateLimiter) (user : Text) (start ttl : ℕ) (old : Option Item)
    → let u = count_update limiter user start ttl in
      passes u.condition_expression old ≡ true
      → 0 < limiter.requests_per_window
      → count request_count_attribute old +ℤ pos 1 ≤ℤ pos limiter.requests_per_window
unfolding count_update count
passes-below limiter user start ttl old h positive =
    elim (Option-cases (lookup request_count_attribute (contents old))) [
      | inl e ↦ rw e (absent limiter.requests_per_window positive)
      | inr (v, e) ↦ rw e (
          below (number (some v)) limiter.requests_per_window
            (rw (e, integer-to_string limiter.requests_per_window) at h))
    ]

fails-at :
    (limiter : RateLimiter) (user : Text) (start ttl : ℕ) (old : Option Item)
    → let u = count_update limiter user start ttl in
      passes u.condition_expression old ≡ false
      → pos limiter.requests_per_window ≤ℤ count request_count_attribute old
unfolding count_update count
fails-at limiter user start ttl old h =
    elim (Option-cases (lookup request_count_attribute (contents old))) [
      | inl e ↦ absurd (never (rw e at h))
      | inr (v, e) ↦ rw e (
          reached (number (some v)) limiter.requests_per_window
            (rw (e, integer-to_string limiter.requests_per_window) at h))
    ]
  where
    never : true ≡ false → ⊥
    never q = cc

one : integer (codes "1") ≡ pos 1
unfolding integer parse_uint
one = refl

count_update-adds :
    (limiter : RateLimiter) (user : Text) (start ttl : ℕ) (old : Option Item)
    → count request_count_attribute (write_item (update (count_update limiter user start ttl)) old)
      ≡ count request_count_attribute old +ℤ pos 1
unfolding count_update text_eq lookup count
count_update-adds limiter user start ttl old =
    rw (write_item-update (count_update limiter user start ttl) old) (added old)
  where
    added :
        (o : Option Item)
        → count request_count_attribute (
            some (
              apply_clauses
                (count_update limiter user start ttl).update_expression
                (unwrap_or o (rate_limit_key user start))))
          ≡ count request_count_attribute o +ℤ pos 1
    added none = rw (count-add, count-set, one) refl
    added (some item) = rw (count-add, count-set, one) refl

-- The update reaches the one item of its window.
applied-update :
    (u : Update) (user : Text) (start : ℕ) (i : Option Item)
    → u.key ≡ rate_limit_key user start
    → applied (update u ∷ []) u.table_name (rate_limit_key user start) i ≡ write_item (update u) i
unfolding text_eq
applied-update u user start i k =
    rw (text_eq_refl u.table_name, k, text_eq_refl user, text_eq_refl (to_string start)) refl

module _ (sv : Services) (doc : Documented sv) (table user : Text) (requests window : ℕ) where
  abbrev pub limiter : RateLimiter
  limiter = new table requests window

  abbrev pub counted : ℕ → sv.State → ℤ
  counted now a =
      count request_count_attribute (
        doc.view.item a table (rate_limit_key user (window_start_epoch_seconds now limiter.window)))

  abbrev update_at : ℕ → Update
  update_at now =
      let start = window_start_epoch_seconds now limiter.window in
      count_update limiter user start (rate_limit_ttl_epoch_seconds start limiter.window)

  update-counts :
      (now : ℕ) (a b : sv.State)
      → Applied doc.view (update (update_at now) ∷ []) a b
      → (counted now b ≡ counted now a +ℤ pos 1)
        × (counted now b ≤ℤ pos limiter.requests_per_window)
  unfolding new count_update
  update-counts now a b k =
      let start = window_start_epoch_seconds now limiter.window in
      let old = doc.view.item a table (rate_limit_key user start) in
      let e : counted now b ≡ counted now a +ℤ pos 1 =
        rw
          (
            k.written table (rate_limit_key user start),
            applied-update (update_at now) user start old refl,
          )
          (count_update-adds limiter user start (rate_limit_ttl_epoch_seconds start limiter.window)
            old) in
      (
        e,
        rw e (
            passes-below limiter user start (rate_limit_ttl_epoch_seconds start limiter.window) old
              k.passed.0 (omega arith)),
      )

  decided :
      {x d : RateLimitDecision}
      → Path (Result RateLimitError RateLimitDecision) (ok x) (ok d)
      → d ≡ x
  decided e = cc

  -- A request that the rate limiter lets through is counted once, in the window of the clock's time,
  -- whose count stays within the limit. The limit and the window are those of `new`, at least one each.
  pub check_and_record_ok :
      (a : sv.State) (d : RateLimitDecision)
      → (check_and_record sv limiter user a).0 ≡ ok d
      → (now : ℕ) × (sv.system_time a ≡ some now)
        × (d.window_start_epoch_seconds ≡ window_start_epoch_seconds now limiter.window)
        × (counted now (check_and_record sv limiter user a).1 ≡ counted now a +ℤ pos 1)
        × (counted now (check_and_record sv limiter user a).1 ≤ℤ pos limiter.requests_per_window)
  unfolding check_and_record record_at current_epoch_seconds new count_update
  check_and_record_ok a d = elim (Option-cases (sv.system_time a)) [
    | inl q ↦ rw (q, check_and_record, ◌>>=◌, current_epoch_seconds) (λ e. cc)
    | inr (now, q) ↦ elim (Result-cases (sv.update_item (update_at now) a).0) [
      | inl (u, c) ↦
          rw (q, c, check_and_record, record_at, ◌>>=◌, current_epoch_seconds)
            (λ e.
              let (adds, within) =
                update-counts now a _ (doc.update_committed (update_at now) a c) in
              (now, refl, ap (λ x. x.window_start_epoch_seconds) (decided e), adds, within))
      | inr (x, c) ↦ rw (q, c, check_and_record, record_at, ◌>>=◌, current_epoch_seconds) (λ e. cc)
    ]
  ]

  refusal :
      (x : SdkError UpdateItemError)
      → update_error x ≡ rate_limit_exceeded
      → x ≡ service_error conditional_check_failed_exception
  refusal (service_error conditional_check_failed_exception) e = refl
  refusal (service_error unhandled) e = cc
  refusal dispatch_failure e = cc

  failure :
      {x : RateLimitError}
      → Path (Result RateLimitError RateLimitDecision) (err x) (err rate_limit_exceeded)
      → x ≡ rate_limit_exceeded
  failure e = cc

  -- A request that is refused for the limit leaves every item as it is, and the count of its window had
  -- reached the limit.
  pub check_and_record_exceeded :
      (a : sv.State)
      → (check_and_record sv limiter user a).0 ≡ err rate_limit_exceeded
      → (now : ℕ) × (sv.system_time a ≡ some now)
        × Same doc.view a (check_and_record sv limiter user a).1
        × (pos limiter.requests_per_window ≤ℤ counted now a)
  unfolding check_and_record record_at current_epoch_seconds new count_update
  check_and_record_exceeded a = elim (Option-cases (sv.system_time a)) [
    | inl q ↦ rw (q, check_and_record, ◌>>=◌, current_epoch_seconds) (λ e. cc)
    | inr (now, q) ↦ elim (Result-cases (sv.update_item (update_at now) a).0) [
      | inl (u, c) ↦ rw (q, c, check_and_record, record_at, ◌>>=◌, current_epoch_seconds) (λ e. cc)
      | inr (x, c) ↦
          rw (q, c, check_and_record, record_at, ◌>>=◌, current_epoch_seconds)
            (λ e.
              let (same, failed) =
                doc.update_refused (update_at now) a (c ∙ ap err (refusal x (failure e))) in
              (
                now,
                refl,
                same,
                fails-at limiter user (window_start_epoch_seconds now limiter.window)
                    (rate_limit_ttl_epoch_seconds (window_start_epoch_seconds now limiter.window)
                      limiter.window)
                    _ failed,
              ))
    ]
  ]
