-- ===== src/TokenReservation/Settlements.antt =====
-- What the settlement of a reservation does to the token usage table.
use internal_ai_gateway.Base.{
  ℕ, ◌≡◌, refl, ap, ◌∙◌, true, false, inl, inr, List, [], ◌∷◌, Option, none, some, Text, ok,
  text_eq, text_eq_iff, lookup, lookup-insert, unwrap_or, Option-cases,
}
use internal_ai_gateway.Base.Int.{pos, sub_ℕ}
use internal_ai_gateway.Services.{
  n, s, bool, other, AttributeValue, Item, set_to, equals, TransactWriteItem, update, Services,
}
use internal_ai_gateway.Services.Documented.{View, Applied, passes, write_item, contents, value_eq}
use internal_ai_gateway.Base.Decimal.{to_string}
use internal_ai_gateway.Services.Counters.{
  applied-first, applied-second, applied-third, write_item-update,
}
use internal_ai_gateway.TokenUsage.{usage_key}
use internal_ai_gateway.TokenReservation.Writes.{
  ReservationReconciliation, reconciliation_values, reconciliation_writes, reconciliation_update,
  completion_update, reservation_status_attribute, reservation_status_reserved,
  reservation_status_completed, actual_tokens_attribute,
}
use internal_ai_gateway.TokenReservation.Effects.{Moves, settle-Moves, base-Moves, settle_clauses}

-- The tokens that a settlement charges: those used, or the whole budget where that is not known.
abbrev pub charged : ReservationReconciliation → ℕ
charged r = unwrap_or r.actual_tokens r.token_budget

abbrev pub settle_update : Text → ReservationReconciliation → Text → TransactWriteItem
settle_update table r window = update (record {
  table_name = table;
  key = usage_key r.user_id window;
  update_expression =
      settle_clauses (sub_ℕ (charged r) r.token_budget) (sub_ℕ 0 r.token_budget) (charged r);
  condition_expression = none;
})

abbrev pub complete_update : Text → ReservationReconciliation → TransactWriteItem
complete_update table r = update (record {
  table_name = table;
  key = usage_key r.user_id r.reservation_window;
  update_expression =
      set_to reservation_status_attribute (s reservation_status_completed)
      ∷ set_to actual_tokens_attribute (n (to_string (charged r)))
      ∷ [];
  condition_expression = some (equals reservation_status_attribute (s reservation_status_reserved));
})

-- The transaction of a settlement.
abbrev pub settle_writes : Text → ReservationReconciliation → List TransactWriteItem
settle_writes table r =
    settle_update table r r.daily_window
    ∷ settle_update table r r.weekly_window
    ∷ complete_update table r
    ∷ []

pub reconciliation_writes_lem :
    (sv : Services) (builds : (w : TransactWriteItem) → sv.builds w ≡ true) (table : Text)
    (r : ReservationReconciliation)
    → reconciliation_writes sv table r ≡ ok (settle_writes table r)
unfolding reconciliation_writes reconciliation_values reconciliation_update completion_update
reconciliation_writes_lem sv builds table r = rw (
  builds (settle_update table r r.daily_window),
  builds (settle_update table r r.weekly_window),
  builds (complete_update table r),
)

-- The status of a reservation's record.
abbrev pub HasStatus : Text → Option Item → Type 0
HasStatus status item = lookup reservation_status_attribute (contents item) ≡ some (s status)

pub record Settled {S : Type 0} (view : View S) (table : Text) (r : ReservationReconciliation)
    (a b : S) : Type 0 where
  pub daily :
      Moves
        (view.item a table (usage_key r.user_id r.daily_window))
        (view.item b table (usage_key r.user_id r.daily_window))
        (sub_ℕ (charged r) r.token_budget)
        (sub_ℕ 0 r.token_budget)
        (pos (charged r))
  pub weekly :
      Moves
        (view.item a table (usage_key r.user_id r.weekly_window))
        (view.item b table (usage_key r.user_id r.weekly_window))
        (sub_ℕ (charged r) r.token_budget)
        (sub_ℕ 0 r.token_budget)
        (pos (charged r))
  pub was_reserved :
      HasStatus reservation_status_reserved
        (view.item a table (usage_key r.user_id r.reservation_window))
  pub is_completed :
      HasStatus reservation_status_completed
        (view.item b table (usage_key r.user_id r.reservation_window))

settle_update-Moves :
    (table : Text) (r : ReservationReconciliation) (window : Text) (old : Option Item)
    → Moves old
        (write_item (settle_update table r window) old)
        (sub_ℕ (charged r) r.token_budget)
        (sub_ℕ 0 r.token_budget)
        (pos (charged r))
settle_update-Moves table r window old = rw (write_item-update _ old) (
    base-Moves r.user_id window old _ _ _ _ (
      settle-Moves (sub_ℕ (charged r) r.token_budget) (sub_ℕ 0 r.token_budget) (charged r)
        (unwrap_or old (usage_key r.user_id window))))

pub value_eq-string :
    (v : AttributeValue) (status : Text) → value_eq v (s status) ≡ true → v ≡ s status
value_eq-string (n x) status e = cc
value_eq-string (s x) status e = ap s ((text_eq_iff x status).0 e)
value_eq-string (bool true) status e = cc
value_eq-string (bool false) status e = cc
value_eq-string other status e = cc

-- The condition holds of a record that is there and reserved, and of no other.
passed-HasStatus :
    (status : Text) (item : Option Item)
    → passes (some (equals reservation_status_attribute (s status))) item ≡ true
    → HasStatus status item
passed-HasStatus status item h =
    elim (Option-cases (lookup reservation_status_attribute (contents item))) [
      | inl e ↦ absurd (missing (rw e at h))
      | inr (v, e) ↦ e ∙ ap some (value_eq-string v status (rw e at h))
    ]
  where
    missing : false ≡ true → ⊥
    missing e = cc

complete_update-HasStatus :
    (table : Text) (r : ReservationReconciliation) (old : Option Item)
    → HasStatus reservation_status_completed (write_item (complete_update table r) old)
unfolding text_eq
complete_update-HasStatus table r old =
    rw (write_item-update _ old, lookup-insert, lookup-insert) refl

-- The three items of a settlement are distinct.
pub record AreDistinct (r : ReservationReconciliation) : Type 0 where
  pub daily_weekly : text_eq r.daily_window r.weekly_window ≡ false
  pub daily_reservation : text_eq r.daily_window r.reservation_window ≡ false
  pub weekly_reservation : text_eq r.weekly_window r.reservation_window ≡ false

pub settle_writes-Settled :
    {S : Type 0} (view : View S) (table : Text) (r : ReservationReconciliation) (a b : S)
    → AreDistinct r
    → Applied view (settle_writes table r) a b
    → Settled view table r a b
settle_writes-Settled view table r a b d k = record {
  daily =
      rw
        (k.written table (usage_key r.user_id r.daily_window)
          ∙ applied-first table r.user_id r.daily_window r.weekly_window r.reservation_window wd ww
              wr refl refl refl refl refl refl d.daily_weekly d.daily_reservation
              d.weekly_reservation _)
        (settle_update-Moves table r r.daily_window _);
  weekly =
      rw
        (k.written table (usage_key r.user_id r.weekly_window)
          ∙ applied-second table r.user_id r.daily_window r.weekly_window r.reservation_window wd ww
              wr refl refl refl refl refl refl d.daily_weekly d.daily_reservation
              d.weekly_reservation _)
        (settle_update-Moves table r r.weekly_window _);
  was_reserved =
      passed-HasStatus reservation_status_reserved
        (view.item a table (usage_key r.user_id r.reservation_window)) k.passed.1.1.0;
  is_completed =
      rw
        (k.written table (usage_key r.user_id r.reservation_window)
          ∙ applied-third table r.user_id r.daily_window r.weekly_window r.reservation_window wd ww
              wr refl refl refl refl refl refl d.daily_weekly d.daily_reservation
              d.weekly_reservation _)
        (complete_update-HasStatus table r _);
}
  where
    wd : TransactWriteItem
    wd = settle_update table r r.daily_window

    ww : TransactWriteItem
    ww = settle_update table r r.weekly_window

    wr : TransactWriteItem
    wr = complete_update table r
