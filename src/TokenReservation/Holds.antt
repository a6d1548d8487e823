-- ===== src/TokenReservation/Holds.antt =====
-- What `reserve` does to the token usage table.
use internal_ai_gateway.Base.{
  ℕ, ◌≡◌, refl, ◌∙◌, true, false, Option, some, Text, ok, text_eq, lookup, unwrap_or,
}
use internal_ai_gateway.Base.Int.{pos}
use internal_ai_gateway.EngineerAuth.{AuthenticatedEngineer}
use internal_ai_gateway.Services.{Condition, Item, TransactWriteItem}
use internal_ai_gateway.Services.Documented.{View, Applied, passes, write_item, key_of}
use internal_ai_gateway.Services.Counters.{
  applied-first, applied-second, applied-third, write_item-update,
}
use internal_ai_gateway.TokenUsage.{usage_key, limit_condition}
use internal_ai_gateway.TokenUsage.Windows.{daily_usage_window, weekly_usage_window}
use internal_ai_gateway.TokenReservation.Writes.{
  limit_exceeded, reservation_window_of, reservation_item,
}
use internal_ai_gateway.TokenReservation.Effects.{Moves, hold-Moves, base-Moves}
use internal_ai_gateway.TokenReservation.Limits.{Within, limit_condition-Within}
use internal_ai_gateway.TokenReservation.Inversion.{
  hold_update, record_put, held_record, hold_writes, daily_ttl, weekly_ttl,
}

-- A window in which `budget` tokens were put on hold, within its limit.
pub record HeldIn (limit : Option ℕ) (budget : ℕ) (old new : Option Item) : Type 0 where
  pub moves : Moves old new (pos budget) (pos budget) (pos 0)
  pub within : Within limit new

hold_update-HeldIn :
    (table user window : Text) (condition : Option Condition) (ttl budget : ℕ) (limit : Option ℕ)
    (old : Option Item)
    → limit_condition limit budget limit_exceeded ≡ ok condition
    → passes condition old ≡ true
    → HeldIn limit budget old (write_item (hold_update table user window condition ttl budget) old)
hold_update-HeldIn table user window condition ttl budget limit old e p = record {
  moves = moved;
  within =
      limit_condition-Within limit budget limit_exceeded condition old new e p moved.total_moves;
}
  where
    new : Option Item
    new = write_item (hold_update table user window condition ttl budget) old

    moved : Moves old new (pos budget) (pos budget) (pos 0)
    moved = rw (write_item-update _ old) (
        base-Moves user window old _ _ _ _
          (hold-Moves ttl budget (unwrap_or old (usage_key user window))))

pub daily-weekly-ne : (now : ℕ) → text_eq (daily_usage_window now) (weekly_usage_window now) ≡ false
unfolding daily_usage_window weekly_usage_window text_eq
daily-weekly-ne now = refl

pub daily-reservation-ne :
    (now : ℕ) (id : Text) → text_eq (daily_usage_window now) (reservation_window_of id) ≡ false
unfolding daily_usage_window text_eq
daily-reservation-ne now id = refl

pub weekly-reservation-ne :
    (now : ℕ) (id : Text) → text_eq (weekly_usage_window now) (reservation_window_of id) ≡ false
unfolding weekly_usage_window text_eq
weekly-reservation-ne now id = refl

-- The table behind the transaction of a hold.
pub record Held {S : Type 0} (view : View S) (table : Text) (engineer : AuthenticatedEngineer)
    (budget now : ℕ) (id : Text) (a b : S) : Type 0 where
  pub daily :
      HeldIn engineer.daily_token_limit budget
        (view.item a table (usage_key engineer.user_id (daily_usage_window now)))
        (view.item b table (usage_key engineer.user_id (daily_usage_window now)))
  pub weekly :
      HeldIn engineer.weekly_token_limit budget
        (view.item a table (usage_key engineer.user_id (weekly_usage_window now)))
        (view.item b table (usage_key engineer.user_id (weekly_usage_window now)))
  pub recorded :
      view.item b table (usage_key engineer.user_id (reservation_window_of id))
      ≡ some (reservation_item (held_record engineer budget now id))

module _ {S : Type 0} (view : View S) (table : Text) (engineer : AuthenticatedEngineer)
    (budget now : ℕ) (id : Text) where
  record_put-key :
      key_of (record_put table (held_record engineer budget now id))
      ≡ usage_key engineer.user_id (reservation_window_of id)
  unfolding reservation_item lookup text_eq
  record_put-key = refl

  pub hold_writes-Held :
      (daily weekly : Option Condition) (a b : S)
      → limit_condition engineer.daily_token_limit budget limit_exceeded ≡ ok daily
      → limit_condition engineer.weekly_token_limit budget limit_exceeded ≡ ok weekly
      → Applied view (hold_writes table engineer budget now id daily weekly) a b
      → Held view table engineer budget now id a b
  hold_writes-Held daily weekly a b ed ew k = record {
    daily =
        rw
          (k.written table (usage_key user day)
            ∙ applied-first table user day week window wd ww wr refl refl refl refl refl
                record_put-key dw dr wr' (view.item a table (usage_key user day)))
          (hold_update-HeldIn table user day daily (daily_ttl now) budget engineer.daily_token_limit
            _ ed k.passed.0);
    weekly =
        rw
          (k.written table (usage_key user week)
            ∙ applied-second table user day week window wd ww wr refl refl refl refl refl
                record_put-key dw dr wr' (view.item a table (usage_key user week)))
          (hold_update-HeldIn table user week weekly (weekly_ttl now) budget
            engineer.weekly_token_limit _ ew k.passed.1.0);
    recorded =
        k.written table (usage_key user window)
        ∙ applied-third table user day week window wd ww wr refl refl refl refl refl record_put-key
            dw dr wr' (view.item a table (usage_key user window));
  }
    where
      user : Text
      user = engineer.user_id

      day : Text
      day = daily_usage_window now

      week : Text
      week = weekly_usage_window now

      window : Text
      window = reservation_window_of id

      wd : TransactWriteItem
      wd = hold_update table user day daily (daily_ttl now) budget

      ww : TransactWriteItem
      ww = hold_update table user week weekly (weekly_ttl now) budget

      wr : TransactWriteItem
      wr = record_put table (held_record engineer budget now id)

      dw : text_eq day week ≡ false
      dw = daily-weekly-ne now

      dr : text_eq day window ≡ false
      dr = daily-reservation-ne now id

      wr' : text_eq week window ≡ false
      wr' = weekly-reservation-ne now id
