-- ===== src/TokenReservation/Reconcile.antt =====
-- `reconcile_reservation` and `reconcile_durably` as a whole: a settlement is made at most once.
use internal_ai_gateway.Base.{
  ◌≡◌, ◌≢◌, refl, ap, sym, ◌∙◌, Bool, true, false, ◌⊎◌, inl, inr, Option, none, some, Result, ok,
  err, Result-cases, arith, lookup, bind_option,
}
use internal_ai_gateway.Base.Actions.{◌>>=◌}
use internal_ai_gateway.Services.{s, Item, AttributeValue, Services}
use internal_ai_gateway.Services.Documented.{Documented, Same, contents}
use internal_ai_gateway.TokenUsage.{usage_key}
use internal_ai_gateway.TokenReservation.{
  TokenReservationManager, reconcile_reservation, reservation_is_completed, reconcile_attempts,
  is_completed,
}
use internal_ai_gateway.TokenReservation.Writes.{
  ReservationReconciliation, TokenReservationError, unreachable, write_failed,
  reservation_status_attribute, reservation_status_completed, reservation_status_reserved,
}
use internal_ai_gateway.TokenReservation.Loops.{IsPrivate, IsQuiet}
use internal_ai_gateway.TokenReservation.Loops.Reconcile.{
  reconcile_attempts-AtMostOnce, reconcile_attempts-ne-unreachable, reconcile_attempts_ok,
}
use internal_ai_gateway.TokenReservation.Settlements.{
  AreDistinct, Settled, HasStatus, settle_writes, settle_writes-Settled, reconciliation_writes_lem,
  value_eq-string,
}

module _ (sv : Services) (doc : Documented sv) (manager : TokenReservationManager)
    (r : ReservationReconciliation) where
  reconcile_reservation_eq :
      (a : sv.State)
      → reconcile_reservation sv manager r a
        ≡ reconcile_attempts sv manager 4 0 r (settle_writes manager.table_name r) a
  unfolding reconcile_reservation
  reconcile_reservation_eq a =
      rw (reconciliation_writes_lem sv doc.builds_complete manager.table_name r) refl

  -- `reconcile_reservation` never reaches the panic behind its loop: the loop has returned before its
  -- four rounds are over.
  pub reconcile_reservation_returns :
      (a : sv.State) → (reconcile_reservation sv manager r a).0 ≢ err unreachable
  reconcile_reservation_returns a =
      rw (reconcile_reservation_eq a)
        (reconcile_attempts-ne-unreachable sv doc manager 4 0 r _ a (omega arith) (omega arith))

  -- While no other client acts, a call of `reconcile_reservation` changes nothing in the table or
  -- makes the settlement once, whatever it answers: both windows give the budget back to the reserved
  -- tokens and take the charged ones into their consumed tokens, and a record that was reserved is
  -- completed.
  pub reconcile_at_most_once :
      (a : sv.State)
      → AreDistinct r
      → IsQuiet sv doc
      → Same doc.view a (reconcile_reservation sv manager r a).1
        ⊎ Settled doc.view manager.table_name r a (reconcile_reservation sv manager r a).1
  reconcile_at_most_once a distinct quiet =
      rw (reconcile_reservation_eq a)
        (elim (reconcile_attempts-AtMostOnce sv doc manager 4 0 r _ a quiet) [
          | inl h ↦ inl h
          | inr k ↦ inr (settle_writes-Settled doc.view manager.table_name r a _ distinct k)
        ])

  -- A settlement that is delivered again changes nothing: while no other client acts, a call of
  -- `reconcile_reservation` on a reservation whose record is completed leaves every item as it is.
  pub reconcile_completed :
      (a : sv.State)
      → AreDistinct r
      → IsQuiet sv doc
      → HasStatus reservation_status_completed
          (doc.view.item a manager.table_name (usage_key r.user_id r.reservation_window))
      → Same doc.view a (reconcile_reservation sv manager r a).1
  reconcile_completed a distinct quiet done = elim (reconcile_at_most_once a distinct quiet) [
    | inl h ↦ h
    | inr k ↦ absurd (statuses (sym done ∙ k.was_reserved))
  ]
    where
      statuses : some (s reservation_status_completed) ≡ some (s reservation_status_reserved) → ⊥
      statuses e = cc

  reservation_is_completed_ok :
      (a : sv.State)
      → (reservation_is_completed sv manager r.user_id r.reservation_window a).0 ≡ ok true
      → HasStatus reservation_status_completed
          (doc.view.item a manager.table_name (usage_key r.user_id r.reservation_window))
  unfolding reservation_is_completed lookup
  reservation_is_completed_ok a e =
      elim (Result-cases
        (sv.get_item manager.table_name (usage_key r.user_id r.reservation_window) a).0) [
          | inl (found, q) ↦
              rw (← doc.get_item_reads manager.table_name _ a found q)
                (read found (rw (q, reservation_is_completed, ◌>>=◌) at e))
          | inr (x, q) ↦ absurd (failed (rw (q, reservation_is_completed, ◌>>=◌) at e))
        ]
    where
      Answer : Type 0
      Answer = Result TokenReservationError Bool

      failed : Path Answer (err write_failed) (ok true) → ⊥
      failed h = cc

      is_completed_HasStatus :
          (v : Option AttributeValue)
          → Path Answer (ok (is_completed sv manager v)) (ok true)
          → v ≡ some (s reservation_status_completed)
      is_completed_HasStatus none h = cc
      is_completed_HasStatus (some v) h =
          ap some (value_eq-string v reservation_status_completed (ok_injective h))
        where
          ok_injective : {x : Bool} → Path Answer (ok x) (ok true) → x ≡ true
          ok_injective h = cc

      read :
          (found : Option Item)
          → Path Answer
              (ok
                (is_completed sv manager (bind_option found (lookup reservation_status_attribute))))
              (ok true)
          → HasStatus reservation_status_completed found
      read none h = cc
      read (some item) h = is_completed_HasStatus (lookup reservation_status_attribute item) h

  -- Where `reconcile_reservation` answers that all is well, the settlement was made at some state of
  -- the call, or the record was read as completed.
  reconcile_ends_well :
      (a : sv.State)
      → AreDistinct r
      → IsPrivate sv doc r.completion_token
      → doc.view.seen a r.completion_token ≡ false
      → (reconcile_reservation sv manager r a).0 ≡ ok tt
      → ((a₀ : sv.State) × Settled doc.view manager.table_name r a₀
            (reconcile_reservation sv manager r a).1)
        ⊎ HasStatus reservation_status_completed (
            doc.view.item
              (reconcile_reservation sv manager r a).1
              manager.table_name
              (usage_key r.user_id r.reservation_window))
  reconcile_ends_well a distinct alone fresh = rw (reconcile_reservation_eq a) (λ e.
      elim (reconcile_attempts_ok sv doc manager 4 0 r _ a alone fresh e) [
        | inl (a₀, k) ↦
            inl (a₀, settle_writes-Settled doc.view manager.table_name r a₀ _ distinct k)
        | inr (a₀, h, c) ↦ inr (
            ap (λ i. lookup reservation_status_attribute (contents i))
              (h.same manager.table_name (usage_key r.user_id r.reservation_window))
            ∙ reservation_is_completed_ok a₀ c)
      ])

  -- While no other client acts, a call of `reconcile_reservation` that answers that all is well has made
  -- the settlement, or changed nothing because it was made before.
  pub reconcile_settles_once :
      (a : sv.State)
      → AreDistinct r
      → IsQuiet sv doc
      → IsPrivate sv doc r.completion_token
      → doc.view.seen a r.completion_token ≡ false
      → (reconcile_reservation sv manager r a).0 ≡ ok tt
      → (Same doc.view a (reconcile_reservation sv manager r a).1
          × HasStatus reservation_status_completed
              (doc.view.item a manager.table_name (usage_key r.user_id r.reservation_window)))
        ⊎ Settled doc.view manager.table_name r a (reconcile_reservation sv manager r a).1
  reconcile_settles_once a distinct quiet alone fresh e =
      elim (reconcile_at_most_once a distinct quiet) [
        | inr k ↦ inr k
        | inl h ↦ inl (
          h,
          before h (elim (reconcile_ends_well a distinct alone fresh e) [
            | inl (a₀, k) ↦ k.is_completed
            | inr c ↦ c
          ]),
        )
      ]
    where
      before :
          Same doc.view a (reconcile_reservation sv manager r a).1
          → HasStatus reservation_status_completed (
              doc.view.item
                (reconcile_reservation sv manager r a).1
                manager.table_name
                (usage_key r.user_id r.reservation_window))
          → HasStatus reservation_status_completed
              (doc.view.item a manager.table_name (usage_key r.user_id r.reservation_window))
      before h c =
          sym (
            ap (λ i. lookup reservation_status_attribute (contents i))
              (h.same manager.table_name (usage_key r.user_id r.reservation_window)))
          ∙ c

  -- While no other client acts, a call of `reconcile_reservation` on a reserved record that answers that
  -- all is well has made the settlement: both windows gave the budget back to the reserved tokens and
  -- took the charged ones into their consumed tokens, and the record is completed. The completion token
  -- is fresh.
  pub reconcile_settles :
      (a : sv.State)
      → AreDistinct r
      → IsQuiet sv doc
      → IsPrivate sv doc r.completion_token
      → doc.view.seen a r.completion_token ≡ false
      → HasStatus reservation_status_reserved
          (doc.view.item a manager.table_name (usage_key r.user_id r.reservation_window))
      → (reconcile_reservation sv manager r a).0 ≡ ok tt
      → Settled doc.view manager.table_name r a (reconcile_reservation sv manager r a).1
  reconcile_settles a distinct quiet alone fresh reserved e =
      elim (reconcile_settles_once a distinct quiet alone fresh e) [
        | inr k ↦ k
        | inl (h, c) ↦ absurd (statuses (sym c ∙ reserved))
      ]
    where
      statuses : some (s reservation_status_completed) ≡ some (s reservation_status_reserved) → ⊥
      statuses q = cc
