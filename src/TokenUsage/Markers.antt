-- ===== src/TokenUsage/Markers.antt =====
-- The recording of a queued usage: its marker makes it happen once.
use internal_ai_gateway.Base.{
  ℕ, ◌≡◌, ◌⊎◌, ◌∙◌, sym, refl, arith, Option, is_some, if◌then◌else◌, true, false, inl, inr, List,
  [], ◌∷◌, none, some, Text, codes, Result, ok, err, lookup, is_none, ◌++◌, Result-cases,
  Option-cases, Bool-cases, ◌==◌, text_eq,
}
use internal_ai_gateway.Base.Actions.{◌>>=◌}
use internal_ai_gateway.Base.Decimal.{to_string}
use internal_ai_gateway.Services.{
  n, s, AttributeValue, Item, set_to, add, attribute_not_exists, TransactWriteItem, update, put,
  Services, SdkError, TransactWriteItemsError,
}
use internal_ai_gateway.Services.Documented.{Documented, Same, Applied, contents}
use internal_ai_gateway.Services.Atomic.{Same-refl, Same-trans}
use internal_ai_gateway.TokenUsage.{
  TokenUsageChecker, TokenUsageError, write_failed, usage_key, usage_window_attribute,
  user_id_attribute, ttl_attribute, consumed_tokens_attribute, token_count_attribute,
  record_reconciliation, record_marked, marked_writes, settle_marker, usage_update, limit_condition,
  reconciliation_marker, reconciliation_marker_exists, current_epoch_seconds,
  is_transaction_canceled_exception,
}
use internal_ai_gateway.TokenUsage.Windows.{
  daily_usage_window, weekly_usage_window, daily_usage_window_start, weekly_usage_window_start,
  daily_window_seconds, weekly_window_seconds, token_usage_ttl_epoch_seconds,
  reconciliation_marker_ttl_epoch_seconds,
}

module _ (sv : Services) (doc : Documented sv) (checker : TokenUsageChecker) (job_id user : Text)
    (tokens occurred_at : ℕ) where
  abbrev pub window : Text
  window = codes "reconciliation#" ++ job_id

  abbrev usage_write : Text → ℕ → TransactWriteItem
  usage_write at ttl = update (record {
    table_name = checker.table_name;
    key = usage_key user at;
    update_expression =
        set_to ttl_attribute (n (to_string ttl))
        ∷ add token_count_attribute (n (to_string tokens))
        ∷ add consumed_tokens_attribute (n (to_string tokens))
        ∷ [];
    condition_expression = none;
  })

  abbrev marker : ℕ → TransactWriteItem
  marker now = put (record {
    table_name = checker.table_name;
    item =
        (user_id_attribute, s user)
        ∷ (usage_window_attribute, s window)
        ∷ (codes "record_type", s (codes "usage_reconciliation"))
        ∷ (ttl_attribute, n (to_string (reconciliation_marker_ttl_epoch_seconds now)))
        ∷ [];
    condition_expression = some (attribute_not_exists usage_window_attribute);
  })

  abbrev writes : ℕ → List TransactWriteItem
  writes now =
      usage_write (daily_usage_window occurred_at)
        (token_usage_ttl_epoch_seconds (daily_usage_window_start occurred_at) daily_window_seconds)
      ∷ usage_write (weekly_usage_window occurred_at) (
          token_usage_ttl_epoch_seconds (weekly_usage_window_start occurred_at)
            weekly_window_seconds)
      ∷ marker now
      ∷ []

  marked_writes_lem :
      (now : ℕ) → marked_writes sv checker job_id user tokens occurred_at now ≡ ok (writes now)
  unfolding marked_writes usage_update limit_condition reconciliation_marker
  marked_writes_lem now = rw (
    doc.builds_complete (
        usage_write (daily_usage_window occurred_at) (
          token_usage_ttl_epoch_seconds (daily_usage_window_start occurred_at)
            daily_window_seconds)),
    doc.builds_complete (
        usage_write (weekly_usage_window occurred_at) (
          token_usage_ttl_epoch_seconds (weekly_usage_window_start occurred_at)
            weekly_window_seconds)),
    doc.builds_complete (marker now),
  )

  -- Looking at the marker changes nothing.
  marker_exists_keeps :
      (a : sv.State) → Same doc.view a (reconciliation_marker_exists sv checker user window a).1
  unfolding reconciliation_marker_exists
  marker_exists_keeps a =
      elim (Result-cases (sv.get_item checker.table_name (usage_key user window) a).0) [
        | inl (found, q) ↦
            rw (q, ◌>>=◌, reconciliation_marker_exists)
              (doc.get_item_keeps checker.table_name (usage_key user window) a)
        | inr (e, q) ↦
            rw (q, ◌>>=◌, reconciliation_marker_exists)
              (doc.get_item_keeps checker.table_name (usage_key user window) a)
      ]

  settle_marker_keeps :
      (result : Result (SdkError TransactWriteItemsError) (Unit {0})) (a : sv.State)
      → Same doc.view a (settle_marker sv checker user window result a).1
  unfolding settle_marker
  settle_marker_keeps (ok _) a = Same-refl doc.view a
  settle_marker_keeps (err source) a =
      elim (Bool-cases (is_transaction_canceled_exception source)) [
        | inr f ↦ rw f (Same-refl doc.view a)
        | inl t ↦ elim (Result-cases (reconciliation_marker_exists sv checker user window a).0) [
          | inl (found, q) ↦ rw (t, q, ◌>>=◌) (marker_exists_keeps a)
          | inr (e, q) ↦ rw (t, q, ◌>>=◌) (marker_exists_keeps a)
        ]
      ]

  abbrev sent : ℕ → sv.State → Result (SdkError TransactWriteItemsError) (Unit {0}) × sv.State
  sent now a = sv.transact_write_items (some job_id) (writes now) a

  record_marked_eq :
      (now : ℕ) (a : sv.State)
      → sv.system_time a ≡ some now
      → record_marked sv checker job_id user tokens occurred_at a
        ≡ settle_marker sv checker user window (sent now a).0 (sent now a).1
  unfolding record_marked current_epoch_seconds
  record_marked_eq now a q =
      rw (q, record_marked, current_epoch_seconds, ◌>>=◌, marked_writes_lem now) refl

  -- A usage job that is delivered again adds nothing: where its marker is in the table, a call of
  -- `record_reconciliation` leaves every item as it is, whatever it answers.
  pub record_reconciliation_marked :
      (a : sv.State) (value : AttributeValue)
      → lookup usage_window_attribute
          (contents (doc.view.item a checker.table_name (usage_key user window)))
        ≡ some value
      → Same doc.view a (record_reconciliation sv checker job_id user tokens occurred_at a).1
  unfolding record_reconciliation record_marked current_epoch_seconds lookup text_eq
  record_reconciliation_marked a value h = elim (Bool-cases (tokens == 0)) [
    | inl z ↦ rw (z, record_reconciliation) (Same-refl doc.view a)
    | inr z ↦ elim (Option-cases (sv.system_time a)) [
      | inl q ↦
          rw (z, q, record_reconciliation, record_marked, current_epoch_seconds, ◌>>=◌)
            (Same-refl doc.view a)
      | inr (now, q) ↦
          rw (z, record_reconciliation, record_marked_eq now a q)
            (elim (doc.atomic (some job_id) (writes now) a) [
              | inl k ↦ Same-trans doc.view k (settle_marker_keeps (sent now a).0 (sent now a).1)
              | inr k ↦ absurd (present k.passed.1.1.0)
            ])
    ]
  ]
    where
      present :
          is_none (
              lookup usage_window_attribute
                (contents (doc.view.item a checker.table_name (usage_key user window))))
            ≡ true
          → ⊥
      present e = absurd (never (rw h at e))
        where
          never : false ≡ true → ⊥
          never q = cc

  -- The marker is in the table.
  abbrev pub IsMarked : sv.State → Type 0
  IsMarked a =
      (item : Item) × (doc.view.item a checker.table_name (usage_key user window) ≡ some item)

  found_marker :
      (source : SdkError TransactWriteItemsError) (b : sv.State)
      → (settle_marker sv checker user window (err source) b).0 ≡ ok tt
      → IsMarked b
  unfolding settle_marker reconciliation_marker_exists
  found_marker source b = elim (Bool-cases (is_transaction_canceled_exception source)) [
    | inr f ↦ rw f (λ h. absurd (failed h))
    | inl t ↦ elim (Result-cases (sv.get_item checker.table_name (usage_key user window) b).0) [
      | inr (e, q) ↦ rw (t, q, ◌>>=◌, reconciliation_marker_exists) (λ h. cc)
      | inl (found, q) ↦
          rw (t, q, ◌>>=◌, reconciliation_marker_exists)
            (λ h.
              marked found (doc.get_item_reads checker.table_name (usage_key user window) b found q)
                h)
    ]
  ]
    where
      Answer : Type 0
      Answer = Result TokenUsageError (Unit {0})

      failed : Path Answer (err write_failed) (ok tt) → ⊥
      failed h = cc

      marked :
          (found : Option Item)
          → found ≡ doc.view.item b checker.table_name (usage_key user window)
          → Path Answer (if is_some found then ok tt else err write_failed) (ok tt)
          → IsMarked b
      marked none e h = absurd (failed h)
      marked (some item) e h = (item, sym e)

  -- The two windows and the marker are written together, or nothing is, because the marker was there.
  abbrev pub IsRecorded : sv.State → sv.State → Type 0
  IsRecorded a b =
      (tokens ≡ 0)
      ⊎ ((Same doc.view a b × IsMarked a)
          ⊎ ((now : ℕ) × (sv.system_time a ≡ some now) × Applied doc.view (writes now) a b))

  Applied-Same :
      (ws : List TransactWriteItem) (a b c : sv.State)
      → Applied doc.view ws a b
      → Same doc.view b c
      → Applied doc.view ws a c
  Applied-Same ws a b c k h = record {
    passed = k.passed;
    written = λ table key. h.same table key ∙ k.written table key;
  }

  sent-IsRecorded :
      (now : ℕ) (a : sv.State)
      → doc.view.seen a job_id ≡ false
      → (settle_marker sv checker user window (sent now a).0 (sent now a).1).0 ≡ ok tt
      → (let b = (settle_marker sv checker user window (sent now a).0 (sent now a).1).1 in
          (Same doc.view a b × IsMarked a) ⊎ Applied doc.view (writes now) a b)
  sent-IsRecorded now a fresh h =
      let keeps = settle_marker_keeps (sent now a).0 (sent now a).1 in
      elim (Result-cases (sent now a).0) [
        | inl (u, q) ↦
            inr (Applied-Same _ a _ _ (doc.committed job_id (writes now) a q fresh) keeps)
        | inr (e, q) ↦ elim (doc.atomic (some job_id) (writes now) a) [
          | inr k ↦ inr (Applied-Same _ a _ _ k keeps)
          | inl k ↦
              let (item, m) = found_marker e (sent now a).1 (rw q at h) in
              inl (
                Same-trans doc.view k keeps,
                (item, sym (k.same checker.table_name (usage_key user window)) ∙ m),
              )
        ]
      ]

  -- A recording under a fresh job that answers that all is well has recorded the usage, now or before.
  pub record_reconciliation-IsRecorded :
      (a : sv.State)
      → doc.view.seen a job_id ≡ false
      → (record_reconciliation sv checker job_id user tokens occurred_at a).0 ≡ ok tt
      → IsRecorded a (record_reconciliation sv checker job_id user tokens occurred_at a).1
  unfolding record_reconciliation record_marked current_epoch_seconds
  record_reconciliation-IsRecorded a fresh = elim (Bool-cases (tokens == 0)) [
    | inl z ↦ (λ h. inl (ground arith))
    | inr z ↦ elim (Option-cases (sv.system_time a)) [
      | inl q ↦
          rw (z, q, record_reconciliation, record_marked, current_epoch_seconds, ◌>>=◌) (λ h. cc)
      | inr (now, q) ↦
          rw (z, record_reconciliation, record_marked_eq now a q)
            (λ h. elim (sent-IsRecorded now a fresh h) [
              | inl k ↦ inr (inl k)
              | inr k ↦ inr (inr (now, q, k))
            ])
    ]
  ]
