-- ===== src/Services/Memory.antt =====
-- The services in memory: a small implementation that has every documented behaviour, on which the
-- theorems about the proxy can be run. Nothing else acts on it, and its clock stands still.
pub mod Laws
use internal_ai_gateway.Base.{
  ℕ, zero, suc, ◌+◌, ◌<◌, ◌≡◌, refl, sym, ap, ◌∙◌, Bool, true, false, ◌&&◌, ◌||◌, ◌⊎◌, inl, inr,
  List, [], ◌∷◌, ◌++◌, Option, none, some, Text, text_eq, text_eq_iff, text_eq_refl, length,
  get_elem?, if◌then◌else◌, Result, ok, err, All, arith, Bool-cases,
}
use mathlib.Core.List.{mem-cons_self}
use internal_ai_gateway.Services.{
  Item, Key, TransactWriteItem, update, CancellationReason, TransactWriteItemsError,
  transaction_canceled_exception, SdkError, service_error, UpdateItemError, Update,
  conditional_check_failed_exception, Services,
}
use internal_ai_gateway.Services.Documented.{
  Documented, View, Same, Applied, PassesIn, applied, passes, condition_of, table_of, key_of,
  conditional_check_failed,
}

pub record Memory : Type 0 where
  pub items : Text → Key → Option Item
  pub issued : List Text
  pub committed : List Text
  pub queues : Text → List Text
  pub clock : Option ℕ

abbrev contains : Text → List Text → Bool
contains t [] = false
contains t (x ∷ xs) = text_eq x t || contains t xs

-- Longer than each of the texts.
abbrev total : List Text → ℕ
total [] = 0
total (x ∷ xs) = length x + total xs

abbrev letters : ℕ → Text
letters zero = []
letters (suc k) = 97 ∷ letters k

length-letters : (k : ℕ) → length (letters k) ≡ k
length-letters zero = refl
length-letters (suc k) = omega (arith, length-letters k)

pub long-fresh : (xs : List Text) (k : ℕ) → total xs < k → contains (letters k) xs ≡ false
long-fresh [] k h = refl
long-fresh (x ∷ xs) k h = elim (Bool-cases (text_eq x (letters k))) [
  | inl e ↦
      let same = ap length ((text_eq_iff x (letters k)).0 e) in
      absurd (omega (arith, same, length-letters k))
  | inr e ↦ rw (e, long-fresh xs k (omega arith))
]

abbrev pass : Memory → TransactWriteItem → Bool
pass a w = passes (condition_of w) (a.items (table_of w) (key_of w))

abbrev all_pass : Memory → List TransactWriteItem → Bool
all_pass a [] = true
all_pass a (w ∷ ws) = pass a w && all_pass a ws

abbrev reasons_of : Memory → List TransactWriteItem → List CancellationReason
reasons_of a [] = []
reasons_of a (w ∷ ws) = (if pass a w then none else some conditional_check_failed) ∷ reasons_of a ws

abbrev commit : List TransactWriteItem → List Text → Memory → Memory
commit ws tokens a = record {
  items = λ table key. applied ws table key (a.items table key);
  issued = a.issued;
  committed = tokens ++ a.committed;
  queues = a.queues;
  clock = a.clock;
}

abbrev run_transaction :
    Bool
    → List Text
    → List TransactWriteItem
    → Memory
    → Result (SdkError TransactWriteItemsError) (Unit {0}) × Memory
run_transaction true tokens ws a = (ok tt, commit ws tokens a)
run_transaction false tokens ws a =
    (err (service_error (transaction_canceled_exception (reasons_of a ws))), a)

abbrev transact :
    Option Text
    → List TransactWriteItem
    → Memory
    → Result (SdkError TransactWriteItemsError) (Unit {0}) × Memory
transact none ws a = run_transaction (all_pass a ws) [] ws a
transact (some token) ws a =
    if contains token a.committed
    then (ok tt, a)
    else run_transaction (all_pass a ws) (token ∷ []) ws a

abbrev update_in : Bool → Update → Memory → Result (SdkError UpdateItemError) (Unit {0}) × Memory
update_in true u a = (ok tt, commit (update u ∷ []) [] a)
update_in false u a = (err (service_error conditional_check_failed_exception), a)

abbrev new_id : Memory → Text
new_id a = letters (suc (total a.issued + total a.committed))

abbrev pub memory : Services
memory = record {
  State = Memory;
  builds = λ w. true;
  transact_write_items = transact;
  update_item = λ u a. update_in (pass a (update u)) u a;
  get_item = λ table key a. (ok (a.items table key), a);
  query = λ table index key limit a. (ok [], a);
  get_secret_value = λ id a. (ok none, a);
  send_message = λ queue body a. (
    ok tt,
    record {
      items = a.items;
      issued = a.issued;
      committed = a.committed;
      queues = λ q. if text_eq q queue then body ∷ a.queues q else a.queues q;
      clock = a.clock;
    },
  );
  receive_message = λ queue a. (ok [], a);
  delete_message = λ queue handle a. (ok tt, a);
  system_time = λ a. a.clock;
  new_uuid = λ a. (
    new_id a,
    record {
      items = a.items;
      issued = new_id a ∷ a.issued;
      committed = a.committed;
      queues = a.queues;
      clock = a.clock;
    },
  );
  random = λ bound a. (bound, a);
  sleep = λ delay a. a;
}

abbrev pub observed : View Memory
observed = record {
  item = λ a. a.items;
  seen = λ a t. contains t a.committed;
  queued = λ a. a.queues;
}
