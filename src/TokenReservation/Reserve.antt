-- ===== src/TokenReservation/Reserve.antt =====
-- `reserve` as a whole: what a granted reservation means, and what a call can do at most.
use internal_ai_gateway.Base.{
  ℕ, ◌≡◌, refl, ◌∙◌, false, ◌&&◌, ◌⊎◌, inl, inr, List, some, Text, Result, ok, is_none,
  Result-cases, Option-cases, Bool-cases, arith, ◌==◌,
}
use internal_ai_gateway.Base.Actions.{◌>>=◌, ◌>>◌, pure}
use internal_ai_gateway.EngineerAuth.{AuthenticatedEngineer}
use internal_ai_gateway.Services.{TransactWriteItem, Services}
use internal_ai_gateway.Services.Documented.{Documented, Same, Applied}
use internal_ai_gateway.Services.Atomic.{Same-refl, Same-trans, AtMostOnce-Same}
use internal_ai_gateway.TokenUsage.{current_epoch_seconds}
use internal_ai_gateway.TokenUsage.Windows.{daily_usage_window, weekly_usage_window}
use internal_ai_gateway.TokenReservation.{
  TokenReservationManager, TokenReservation, reserve, reserve_at, reserve_tracked, reserve_attempts,
}
use internal_ai_gateway.TokenReservation.Writes.{
  TokenReservationError, reservation_window_of, reservation_writes,
}
use internal_ai_gateway.TokenReservation.Loops.{IsPrivate, IsQuiet}
use internal_ai_gateway.TokenReservation.Loops.Reserve.{
  reserve_attempts_ok, reserve_attempts-AtMostOnce,
}
use internal_ai_gateway.TokenReservation.Inversion.{reservation_writes-eq_ok}
use internal_ai_gateway.TokenReservation.Holds.{Held, hold_writes-Held}

module _ (sv : Services) (doc : Documented sv) (manager : TokenReservationManager)
    (engineer : AuthenticatedEngineer) (budget : ℕ) where
  abbrev pub held_by : ℕ → Text → Text → TokenReservation
  held_by now id completion_token = record {
    completion_token = completion_token;
    daily_window = daily_usage_window now;
    engineer = engineer;
    occurred_at = now;
    reservation_window = some (reservation_window_of id);
    token_budget = budget;
    weekly_window = weekly_usage_window now;
  }

  module _ (now : ℕ) (a : sv.State) where
    abbrev id : Text
    id = (sv.new_uuid a).0

    abbrev second : Text × sv.State
    second = sv.new_uuid (sv.new_uuid a).1

    seen_new : doc.view.seen second.1 id ≡ false
    seen_new = (doc.new_uuid_keeps (sv.new_uuid a).1).2 id ∙ (doc.new_uuid_keeps a).1

    -- An outcome that grants the reservation stands behind a hold.
    abbrev Granted : Result TokenReservationError TokenReservation × sv.State → Type 0
    Granted p =
        (r : TokenReservation)
        → p.0 ≡ ok r
        → (a₀ : sv.State) × Held doc.view manager.table_name engineer budget now id a₀ p.1
          × (r ≡ held_by now id second.0)

    writes-Held :
        (ws : List TransactWriteItem) (a₀ b : sv.State)
        → reservation_writes sv manager.table_name engineer budget now id ≡ ok ws
        → Applied doc.view ws a₀ b
        → Held doc.view manager.table_name engineer budget now id a₀ b
    writes-Held ws a₀ b ew k =
        let (daily, weekly, ed, el, q) =
          reservation_writes-eq_ok sv doc.builds_complete manager.table_name engineer budget now id
            ws ew in
        hold_writes-Held doc.view manager.table_name engineer budget now id daily weekly a₀ b ed el
          (rw q at k)

    attempts-Granted :
        (ws : List TransactWriteItem)
        → IsPrivate sv doc id
        → reservation_writes sv manager.table_name engineer budget now id ≡ ok ws
        → Granted (
            (reserve_attempts sv manager 4 0 id ws >> pure (ok (held_by now id second.0))) second.1)
    attempts-Granted ws alone ew =
        elim (Result-cases (reserve_attempts sv manager 4 0 id ws second.1).0) [
          | inl (u, ea) ↦
              let (a₀, k) =
                reserve_attempts_ok sv doc manager 4 0 id ws second.1 alone seen_new (omega arith)
                  (omega arith) ea in
              rw (ea, ◌>>=◌) (λ r e. (a₀, writes-Held ws a₀ _ ew k, cc))
          | inr (x, ea) ↦ rw (ea, ◌>>=◌) (λ r e. cc)
        ]

    -- Nothing, or the hold in full.
    abbrev Once : sv.State → Type 0
    Once b =
        Same doc.view a b
        ⊎ ((now : ℕ) × Held doc.view manager.table_name engineer budget now id a b)

    drawn : Same doc.view a second.1
    drawn = Same-trans doc.view (doc.new_uuid_keeps a).0 (doc.new_uuid_keeps (sv.new_uuid a).1).0

    attempts_state :
        (ws : List TransactWriteItem)
        → ((reserve_attempts sv manager 4 0 id ws >> pure (ok (held_by now id second.0)))
            second.1).1
          ≡ (reserve_attempts sv manager 4 0 id ws second.1).1
    attempts_state ws = elim (Result-cases (reserve_attempts sv manager 4 0 id ws second.1).0) [
      | inl (u, ea) ↦ rw (ea, ◌>>=◌) refl
      | inr (x, ea) ↦ rw (ea, ◌>>=◌) refl
    ]

    attempts-Once :
        (ws : List TransactWriteItem)
        → IsQuiet sv doc
        → reservation_writes sv manager.table_name engineer budget now id ≡ ok ws
        → Once
            ((reserve_attempts sv manager 4 0 id ws >> pure (ok (held_by now id second.0)))
              second.1).1
    attempts-Once ws quiet ew =
        rw (attempts_state ws)
          (elim (AtMostOnce-Same doc.view ws drawn
            (reserve_attempts-AtMostOnce sv doc manager 4 0 id ws second.1 quiet)) [
              | inl h ↦ inl h
              | inr k ↦ inr (now, writes-Held ws a _ ew k)
            ])

    reserve_tracked-Granted :
        IsPrivate sv doc id → Granted (reserve_tracked sv manager engineer budget now a)
    unfolding reserve_tracked
    reserve_tracked-Granted alone =
        elim (Result-cases (reservation_writes sv manager.table_name engineer budget now id)) [
          | inl (ws, ew) ↦ rw (ew, reserve_tracked) (attempts-Granted ws alone ew)
          | inr (x, ew) ↦ rw (ew, reserve_tracked) (λ r e. cc)
        ]

  reserve_tracked_eq :
      (a : sv.State) (now : ℕ)
      → (budget == 0) ≡ false
      → sv.system_time a ≡ some now
      → (is_none engineer.daily_token_limit && is_none engineer.weekly_token_limit) ≡ false
      → reserve sv manager engineer budget a ≡ reserve_tracked sv manager engineer budget now a
  unfolding reserve reserve_at current_epoch_seconds
  reserve_tracked_eq a now z q limited =
      rw (z, q, limited, reserve, ◌>>=◌, current_epoch_seconds) refl

  -- A reservation that is granted to an engineer with a limit was committed: at some state a₀ behind
  -- the call's start both windows of the clock's time took the budget into their total and their
  -- reserved tokens, each total stayed within the engineer's limit, and the reservation's record was
  -- written; the reservation that is returned names that record. No other client may use the fresh
  -- token while the call sleeps between two attempts.
  pub reserve_holds :
      (a : sv.State) (r : TokenReservation)
      → (is_none engineer.daily_token_limit && is_none engineer.weekly_token_limit) ≡ false
      → IsPrivate sv doc (sv.new_uuid a).0
      → (reserve sv manager engineer budget a).0 ≡ ok r
      → (now : ℕ) × (a₀ : sv.State) × (sv.system_time a ≡ some now)
        × Held doc.view manager.table_name engineer budget now
            (sv.new_uuid a).0
            a₀
            (reserve sv manager engineer budget a).1
        × (r ≡ held_by now (sv.new_uuid a).0 (sv.new_uuid (sv.new_uuid a).1).0)
  unfolding reserve reserve_at current_epoch_seconds
  reserve_holds a r limited alone = elim (Bool-cases (budget == 0)) [
    | inl z ↦ rw (z, reserve) (λ e. cc)
    | inr z ↦ elim (Option-cases (sv.system_time a)) [
      | inl q ↦ rw (z, q, reserve, ◌>>=◌, current_epoch_seconds) (λ e. cc)
      | inr (now, q) ↦
          rw (reserve_tracked_eq a now z q limited)
            (λ e. let (a₀, h, p) = reserve_tracked-Granted now a alone r e in (now, a₀, q, h, p))
    ]
  ]

  tracked-Once :
      (now : ℕ) (a : sv.State)
      → IsQuiet sv doc
      → Once now a (reserve_tracked sv manager engineer budget now a).1
  unfolding reserve_tracked
  tracked-Once now a quiet =
      elim (Result-cases
        (reservation_writes sv manager.table_name engineer budget now (id now a))) [
          | inl (ws, ew) ↦ rw (ew, reserve_tracked) (attempts-Once now a ws quiet ew)
          | inr (x, ew) ↦ rw (ew, reserve_tracked) (inl (drawn now a))
        ]

  -- While no other client acts, a call of `reserve` for an engineer with a limit changes nothing in
  -- the table or holds the budget once in full, whatever it answers: no failure, retry or lost answer
  -- leaves a part of a hold or two of them.
  pub reserve_at_most_once :
      (a : sv.State)
      → (is_none engineer.daily_token_limit && is_none engineer.weekly_token_limit) ≡ false
      → IsQuiet sv doc
      → Same doc.view a (reserve sv manager engineer budget a).1
        ⊎ ((now : ℕ) × Held doc.view manager.table_name engineer budget now
              (sv.new_uuid a).0
              a
              (reserve sv manager engineer budget a).1)
  unfolding reserve reserve_at current_epoch_seconds
  reserve_at_most_once a limited quiet = elim (Bool-cases (budget == 0)) [
    | inl z ↦ rw (z, reserve) (inl (Same-refl doc.view a))
    | inr z ↦ elim (Option-cases (sv.system_time a)) [
      | inl q ↦ rw (z, q, reserve, ◌>>=◌, current_epoch_seconds) (inl (Same-refl doc.view a))
      | inr (now, q) ↦ rw (reserve_tracked_eq a now z q limited) (tracked-Once now a quiet)
    ]
  ]
