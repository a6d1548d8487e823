-- ===== src/Services/Memory/Laws.antt =====
-- The services in memory behave as documented.
use internal_ai_gateway.Base.{
  ℕ, zero, suc, ◌+◌, ◌≡◌, refl, sym, ap, ◌∙◌, Bool, true, false, ◌⊎◌, inl, inr, List, [], ◌∷◌,
  Option, none, some, Text, text_eq_refl, get_elem?, Result, ok, err, All, arith, Bool-cases,
}
use mathlib.Core.List.{mem-cons_self}
use internal_ai_gateway.Services.{
  Item, TransactWriteItem, update, CancellationReason, TransactWriteItemsError,
  transaction_canceled_exception, SdkError, service_error, Update,
  conditional_check_failed_exception,
}
use internal_ai_gateway.Services.Documented.{
  Documented, Same, Applied, PassesIn, conditional_check_failed,
}
use internal_ai_gateway.Services.Memory.{
  Memory, memory, observed, contains, total, pass, all_pass, reasons_of, commit, run_transaction,
  transact, update_in, long-fresh,
}

pub unchanged : (a : Memory) → Same observed a a
unchanged a = record { same = λ table key. refl }

all_pass-All :
    (a : Memory) (ws : List TransactWriteItem) → all_pass a ws ≡ true → All (PassesIn observed a) ws
all_pass-All a [] h = tt
all_pass-All a (w ∷ ws) h = elim (Bool-cases (pass a w)) [
  | inl e ↦ (e, all_pass-All a ws (rw e at h))
  | inr e ↦ absurd (never (rw e at h))
]
  where
    never : false ≡ true → ⊥
    never e = cc

commit-Applied :
    (a : Memory) (tokens : List Text) (ws : List TransactWriteItem)
    → all_pass a ws ≡ true
    → Applied observed ws a (commit ws tokens a)
commit-Applied a tokens ws h = record { passed = all_pass-All a ws h; written = λ table key. refl }

pub reasons_of-name :
    (a : Memory) (ws : List TransactWriteItem) (i : ℕ) (w : TransactWriteItem)
    → get_elem? (reasons_of a ws) i ≡ some (some conditional_check_failed)
    → get_elem? ws i ≡ some w
    → pass a w ≡ false
reasons_of-name a [] i w h k = cc
reasons_of-name a (v ∷ ws) zero w h k = elim (Bool-cases (pass a v)) [
  | inl e ↦ absurd (never (rw e at h))
  | inr e ↦ ap (pass a) (sym (head k)) ∙ e
]
  where
    never : Path (Option (Option Text)) (some none) (some (some conditional_check_failed)) → ⊥
    never q = cc

    head : Path (Option TransactWriteItem) (some v) (some w) → v ≡ w
    head q = cc
reasons_of-name a (v ∷ ws) (suc i) w h k = reasons_of-name a ws i w h k

-- The laws of a transaction, on its three outcomes.
transaction_atomic :
    (passed : Bool) (tokens : List Text) (ws : List TransactWriteItem) (a : Memory)
    → all_pass a ws ≡ passed
    → let b = (run_transaction passed tokens ws a).1 in Same observed a b ⊎ Applied observed ws a b
transaction_atomic true tokens ws a h = inr (commit-Applied a tokens ws h)
transaction_atomic false tokens ws a h = inl (unchanged a)

pub transaction_committed :
    (passed : Bool) (tokens : List Text) (ws : List TransactWriteItem) (a : Memory)
    → all_pass a ws ≡ passed
    → (run_transaction passed tokens ws a).0 ≡ ok tt
    → Applied observed ws a (run_transaction passed tokens ws a).1
transaction_committed true tokens ws a h e = commit-Applied a tokens ws h
transaction_committed false tokens ws a h e = cc

transaction_canceled :
    (passed : Bool) (tokens : List Text) (ws : List TransactWriteItem) (a : Memory)
    (reasons : List CancellationReason)
    → (run_transaction passed tokens ws a).0
      ≡ err (service_error (transaction_canceled_exception reasons))
    → ((run_transaction passed tokens ws a).1 ≡ a) × (reasons ≡ reasons_of a ws)
transaction_canceled true tokens ws a reasons e = cc
transaction_canceled false tokens ws a reasons e = (refl, cc)

pub transact_canceled :
    (token : Option Text) (ws : List TransactWriteItem) (a : Memory)
    (reasons : List CancellationReason)
    → (transact token ws a).0 ≡ err (service_error (transaction_canceled_exception reasons))
    → ((transact token ws a).1 ≡ a) × (reasons ≡ reasons_of a ws)
transact_canceled none ws a reasons e = transaction_canceled (all_pass a ws) [] ws a reasons e
transact_canceled (some token) ws a reasons e = elim (Bool-cases (contains token a.committed)) [
  | inl c ↦ absurd (seen (rw c at e))
  | inr c ↦ rw c (transaction_canceled (all_pass a ws) (token ∷ []) ws a reasons (rw c at e))
]
  where
    Answer : Type 0
    Answer = Result (SdkError TransactWriteItemsError) (Unit {0})

    seen : Path Answer (ok tt) (err (service_error (transaction_canceled_exception reasons))) → ⊥
    seen q = cc

pub transact_atomic :
    (token : Option Text) (ws : List TransactWriteItem) (a : Memory)
    → let b = (transact token ws a).1 in Same observed a b ⊎ Applied observed ws a b
transact_atomic none ws a = transaction_atomic (all_pass a ws) [] ws a refl
transact_atomic (some token) ws a = elim (Bool-cases (contains token a.committed)) [
  | inl c ↦ rw c (inl (unchanged a))
  | inr c ↦ rw c (transaction_atomic (all_pass a ws) (token ∷ []) ws a refl)
]

pub transact_committed :
    (token : Text) (ws : List TransactWriteItem) (a : Memory)
    → (transact (some token) ws a).0 ≡ ok tt
    → contains token a.committed ≡ false
    → Applied observed ws a (transact (some token) ws a).1
transact_committed token ws a e c =
    rw c (transaction_committed (all_pass a ws) (token ∷ []) ws a refl (rw c at e))

pub update_laws :
    (passed : Bool) (u : Update) (a : Memory)
    → pass a (update u) ≡ passed
    → ((update_in passed u a).0 ≡ ok tt
        → Applied observed (update u ∷ []) a (update_in passed u a).1)
      × ((update_in passed u a).0 ≡ err (service_error conditional_check_failed_exception)
          → Same observed a (update_in passed u a).1 × (passed ≡ false))
update_laws true u a h = (λ e. record { passed = (h, tt); written = λ table key. refl }, λ e. cc)
update_laws false u a h = (λ e. cc, λ e. (unchanged a, refl))

pub found_read :
    {found item : Option Item}
    → Path (Result (SdkError (Unit {0})) (Option Item)) (ok item) (ok found)
    → found ≡ item
found_read e = cc

pub canceled_keeps :
    (token : Option Text) (ws : List TransactWriteItem) (a : Memory)
    (reasons : List CancellationReason)
    → (transact token ws a).0 ≡ err (service_error (transaction_canceled_exception reasons))
    → let b = (transact token ws a).1 in
      Same observed a b × ((t : Text) → contains t b.committed ≡ contains t a.committed)
canceled_keeps token ws a reasons e =
    rw (transact_canceled token ws a reasons e).0 (unchanged a, λ t. refl)

unfoldable pub documented : Documented memory
documented = record {
  view = observed;
  builds_complete = λ w. refl;
  atomic = transact_atomic;
  committed = transact_committed;
  committed_once = λ ws a e. transaction_committed (all_pass a ws) [] ws a refl e;
  canceled = λ token ws reasons a e. canceled_keeps token ws a reasons e;
  canceled_reason = λ token ws reasons a i w e h k.
      reasons_of-name a ws i w (rw (transact_canceled token ws a reasons e).1 at h) k;
  update_committed = λ u a e. (update_laws (pass a (update u)) u a refl).0 e;
  update_refused = λ u a e. (update_laws (pass a (update u)) u a refl).1 e;
  get_item_reads = λ table key a found e. found_read e;
  get_item_keeps = λ table key a. unchanged a;
  new_uuid_keeps = λ a. (
    record { same = λ table key. refl },
    long-fresh a.committed (suc (total a.issued + total a.committed)) (omega arith),
    λ t. refl,
  );
  random_keeps = λ bound a. (omega arith, unchanged a, λ t. refl);
  sent = λ queue body a e. rw (text_eq_refl queue) mem-cons_self;
  send_message_keeps = λ queue body a. record { same = λ table key. refl };
}
