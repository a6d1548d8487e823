-- ===== src/Tests/Reservations.antt =====
-- Runs of the theorems on reservations: an engineer with a daily limit of 10 holds 4 tokens, and uses 3.
use internal_ai_gateway.TokenReservation.{reconcile_attempts}
use internal_ai_gateway.TokenReservation.Writes.{
  reconciliation_update, completion_update, reservation_item, reconciliation_values,
}
use internal_ai_gateway.TokenUsage.{marked_writes}
use internal_ai_gateway.TokenUsage.{settle_marker}
use internal_ai_gateway.TokenUsage.{reconciliation_marker}
use internal_ai_gateway.TokenUsage.{usage_update}
use internal_ai_gateway.TokenUsage.{record_reconciliation}
use internal_ai_gateway.TokenReservation.Writes.{reservation_put}
use internal_ai_gateway.TokenUsage.{limit_condition}
use internal_ai_gateway.TokenReservation.Writes.{reservation_update}
use internal_ai_gateway.TokenUsage.{current_epoch_seconds}
use internal_ai_gateway.Base.{
  ◌∷◌, [], ℕ, ◌≡◌, ◌≢◌, refl, ◌⊎◌, List, none, some, Text, err, codes, lookup, text_eq, insert,
}
use internal_ai_gateway.Base.Int.{pos}
use mathlib.Core.List.{Mem}
use internal_ai_gateway.TokenUsage.Markers.{record_reconciliation_marked}
use internal_ai_gateway.Services.{s}
use internal_ai_gateway.Services.{TransactWriteItem}
use internal_ai_gateway.Services.Atomic.{Same-refl}
use internal_ai_gateway.Services.Documented.{Same}
use internal_ai_gateway.Services.Memory.{Memory, memory}
use internal_ai_gateway.Services.Memory.Laws.{documented}
use internal_ai_gateway.Tests.Inputs.{manager, ann, empty, job}
use internal_ai_gateway.TokenUsage.{usage_key}
use internal_ai_gateway.TokenUsage.Windows.{daily_usage_window, weekly_usage_window}
use internal_ai_gateway.TokenReservation.{
  reserve, reserve_at, reserve_tracked, reserve_attempts, reconcile_reservation, reconcile_durably,
  process_reconciliation,
}
use internal_ai_gateway.TokenReservation.Writes.{
  reservation_writes, reconciliation_writes, ReservationReconciliation, unreachable,
}
use internal_ai_gateway.TokenReservation.Effects.{Moves}
use internal_ai_gateway.TokenReservation.Reserve.{reserve_holds, reserve_at_most_once, held_by}
use internal_ai_gateway.TokenReservation.Holds.{Held}
use internal_ai_gateway.TokenReservation.Inversion.{hold_writes}
use internal_ai_gateway.TokenReservation.Limits.{under}
use internal_ai_gateway.TokenReservation.Settlements.{settle_writes, Settled}
use internal_ai_gateway.TokenReservation.Reconcile.{
  reconcile_settles, reconcile_at_most_once, reconcile_completed, reconcile_reservation_returns,
}
use internal_ai_gateway.TokenReservation.Cycle.{
  reserve_then_reconcile, settlement, settlement-AreDistinct,
}
use internal_ai_gateway.TokenReservation.Worker.{IsProcessed, reconcile_durably_ok}

reserve_holds_example :
    (now : ℕ) × (a₀ : Memory) × (empty.clock ≡ some now)
    × Held documented.view
        (codes "usage")
        ann
        4
        now
        (codes "a")
        a₀
        (reserve memory manager ann 4 empty).1
    × (held_by memory documented manager ann 4 86400 (codes "a") (codes "aa")
        ≡ held_by memory documented manager ann 4 now (codes "a") (codes "aa"))
unfolding reserve reserve_at current_epoch_seconds reserve_tracked reservation_writes
    reservation_update limit_condition reservation_put reserve_attempts lookup
reserve_holds_example =
    reserve_holds memory documented manager ann 4 empty
      (held_by memory documented manager ann 4 86400 (codes "a") (codes "aa")) refl (λ delay a h. h)
      refl

reserve_at_most_once_example :
    Same documented.view empty (reserve memory manager ann 4 empty).1
    ⊎ ((now : ℕ) × Held documented.view
          (codes "usage")
          ann
          4
          now
          (codes "a")
          empty
          (reserve memory manager ann 4 empty).1)
reserve_at_most_once_example =
    reserve_at_most_once memory documented manager ann 4 empty refl
      (λ delay a. Same-refl documented.view a)

-- The table behind the hold, and its settlement.
abbrev held_state : Memory
held_state = (reserve memory manager ann 4 empty).1

abbrev used_three : ReservationReconciliation
used_three = settlement ann 4 86400 (codes "a") (codes "aa") (some 3)

abbrev settled_state : Memory
settled_state = (reconcile_reservation memory manager used_three held_state).1

reconcile_settles_example :
    Settled documented.view (codes "usage") used_three held_state settled_state
unfolding documented reserve reserve_at current_epoch_seconds reserve_tracked reservation_writes
    reservation_update limit_condition reservation_put reserve_attempts lookup text_eq
    reconcile_reservation reconciliation_writes reconciliation_update completion_update
    reconcile_attempts insert reservation_item reconciliation_values
reconcile_settles_example =
    reconcile_settles memory documented manager used_three held_state
      (settlement-AreDistinct ann 4 86400 (codes "a") (codes "aa") (some 3))
      (λ delay a. Same-refl documented.view a) (λ delay a h. h) refl refl refl

reconcile_at_most_once_example :
    Same documented.view held_state settled_state
    ⊎ Settled documented.view (codes "usage") used_three held_state settled_state
reconcile_at_most_once_example =
    reconcile_at_most_once memory documented manager used_three held_state
      (settlement-AreDistinct ann 4 86400 (codes "a") (codes "aa") (some 3))
      (λ delay a. Same-refl documented.view a)

reconcile_completed_example :
    Same documented.view settled_state
      (reconcile_reservation memory manager used_three settled_state).1
unfolding documented reserve reserve_at current_epoch_seconds reserve_tracked reservation_writes
    reservation_update limit_condition reservation_put reserve_attempts lookup text_eq
    reconcile_reservation reconciliation_writes reconciliation_update completion_update
    reconcile_attempts insert reservation_item reconciliation_values weekly_usage_window
    daily_usage_window
reconcile_completed_example =
    reconcile_completed memory documented manager used_three settled_state
      (settlement-AreDistinct ann 4 86400 (codes "a") (codes "aa") (some 3))
      (λ delay a. Same-refl documented.view a) refl

reconcile_reservation_returns_example :
    (reconcile_reservation memory manager used_three held_state).0 ≢ err unreachable
reconcile_reservation_returns_example =
    reconcile_reservation_returns memory documented manager used_three held_state

reconcile_durably_ok_example :
    IsProcessed memory manager documented job empty (reconcile_durably memory manager job empty).1
    ⊎ ((body : Text) × Mem body
          (documented.view.queued (reconcile_durably memory manager job empty).1 (codes "queue"))
        × (manager.json.from_json body ≡ some job))
unfolding reconcile_durably process_reconciliation record_reconciliation current_epoch_seconds
    marked_writes usage_update limit_condition reconciliation_marker settle_marker lookup documented
reconcile_durably_ok_example =
    reconcile_durably_ok memory manager documented job empty
      (λ delay a. Same-refl documented.view a) refl refl

-- The two transactions by themselves.
abbrev holds : List TransactWriteItem
holds = hold_writes (codes "usage") ann 4 86400 (codes "a") (some (under 6)) none

abbrev settles : List TransactWriteItem
settles = settle_writes (codes "usage") used_three

abbrev behind_holds : Memory
behind_holds = (memory.transact_write_items none holds empty).1

abbrev behind_settles : Memory
behind_settles = (memory.transact_write_items none settles behind_holds).1

reserve_then_reconcile_example :
    Moves
      (documented.view.item empty
        (codes "usage")
        (usage_key (codes "ann") (daily_usage_window 86400)))
      (documented.view.item behind_settles
        (codes "usage")
        (usage_key (codes "ann") (daily_usage_window 86400)))
      (pos 3)
      (pos 0)
      (pos 3)
    × Moves
        (documented.view.item empty
          (codes "usage")
          (usage_key (codes "ann") (weekly_usage_window 86400)))
        (documented.view.item behind_settles
          (codes "usage")
          (usage_key (codes "ann") (weekly_usage_window 86400)))
        (pos 3)
        (pos 0)
        (pos 3)
unfolding reservation_writes reservation_update limit_condition reservation_put
    reconciliation_writes reconciliation_update completion_update reconciliation_values lookup
    text_eq reservation_item
reserve_then_reconcile_example =
    reserve_then_reconcile memory (λ w. refl) (codes "usage") ann 4 86400 (codes "a") (codes "aa")
      (some 3) documented.view empty behind_holds behind_settles holds settles refl refl
      (documented.committed_once holds empty refl)
      (documented.committed_once settles behind_holds refl)

-- A table in which every item is the marker of a job.
abbrev marked : Memory
marked = record empty {
  items = λ table key. some ((codes "usage_window", s (codes "reconciliation#job")) ∷ []);
}

record_reconciliation_marked_example :
    Same documented.view marked
      (record_reconciliation memory manager.token_usage_checker
        (codes "job")
        (codes "ann")
        7
        86400
        marked).1
unfolding lookup documented text_eq
record_reconciliation_marked_example =
    record_reconciliation_marked memory documented manager.token_usage_checker (codes "job")
      (codes "ann") 7 86400 marked (s (codes "reconciliation#job")) refl
