-- ===== src/Services/Documented.antt =====
-- The documented behaviour of the services that the proofs rely on: transactions are atomic, checked
-- against their conditions and idempotent under a client token; reads are consistent.
use internal_ai_gateway.Base.{
  ℕ, ◌≤◌, ◌≡◌, ◌⊎◌, Bool, true, false, not, ◌&&◌, ◌||◌, List, [], ◌∷◌, ◌++◌, Option, none, some,
  Text, codes, text_eq, lookup, insert, get_elem?, if◌then◌else◌, ok, err, is_none, All,
}
use mathlib.Core.List.{Mem}
use internal_ai_gateway.Base.Int.{ℤ, pos, ◌+ℤ◌, leb_ℤ}
use internal_ai_gateway.Base.Decimal.{integer, int_to_string}
use internal_ai_gateway.Services.{
  AttributeValue, n, s, bool, other, Item, Key, Clause, set_to, add, Condition,
  attribute_not_exists, at_most, less_than, equals, either, Update, TransactWriteItem, update, put,
  CancellationReason, transaction_canceled_exception, service_error,
  conditional_check_failed_exception, Services,
}

abbrev pub value_eq : AttributeValue → AttributeValue → Bool
value_eq (n x) (n y) = text_eq x y
value_eq (s x) (s y) = text_eq x y
value_eq (bool true) (bool b) = b
value_eq (bool false) (bool b) = not b
value_eq _ _ = false

abbrev pub key_eq : Key → Key → Bool
key_eq [] [] = true
key_eq [] (y ∷ ys) = false
key_eq (x ∷ xs) [] = false
key_eq ((a, v) ∷ xs) ((b, w) ∷ ys) = text_eq a b && (value_eq v w && key_eq xs ys)

-- The number under an attribute; `ADD` takes an absent one as 0.
abbrev pub number : Option AttributeValue → ℤ
number (some (n t)) = integer t
number (some (s t)) = pos 0
number (some (bool b)) = pos 0
number (some other) = pos 0
number none = pos 0

abbrev pub contents : Option Item → Item
contents none = []
contents (some item) = item

unfoldable pub count : Text → Option Item → ℤ
count name item = number (lookup name (contents item))

abbrev pub apply_clause : Clause → Item → Item
apply_clause (set_to name v) item = insert name v item
apply_clause (add name v) item =
    insert name (n (int_to_string (number (lookup name item) +ℤ number (some v)))) item

abbrev pub apply_clauses : List Clause → Item → Item
apply_clauses [] item = item
apply_clauses (c ∷ cs) item = apply_clauses cs (apply_clause c item)

-- A comparison holds of an attribute that is there.
abbrev pub compares : (AttributeValue → Bool) → Option AttributeValue → Bool
compares test none = false
compares test (some v) = test v

abbrev pub holds : Condition → Item → Bool
holds (attribute_not_exists name) item = is_none (lookup name item)
holds (at_most name v) item =
    compares (λ w. leb_ℤ (number (some w)) (number (some v))) (lookup name item)
holds (less_than name v) item =
    compares (λ w. not (leb_ℤ (number (some v)) (number (some w)))) (lookup name item)
holds (equals name v) item = compares (λ w. value_eq w v) (lookup name item)
holds (either c d) item = holds c item || holds d item

abbrev pub passes : Option Condition → Option Item → Bool
passes none item = true
passes (some c) item = holds c (contents item)

abbrev pick : Text → Item → Key
pick name item = elim (lookup name item) [ none ↦ [] | some v ↦ (name, v) ∷ [] ]

-- What a write is aimed at. An item put into the token usage table carries its key.
abbrev pub table_of : TransactWriteItem → Text
table_of (update u) = u.table_name
table_of (put p) = p.table_name

abbrev pub key_of : TransactWriteItem → Key
key_of (update u) = u.key
key_of (put p) = pick (codes "user_id") p.item ++ pick (codes "usage_window") p.item

abbrev pub condition_of : TransactWriteItem → Option Condition
condition_of (update u) = u.condition_expression
condition_of (put p) = p.condition_expression

-- The item after a write. An update of a missing item creates it with its key attributes.
abbrev pub write_item : TransactWriteItem → Option Item → Option Item
write_item (update u) none = some (apply_clauses u.update_expression u.key)
write_item (update u) (some item) = some (apply_clauses u.update_expression item)
write_item (put p) item = some p.item

abbrev pub targets : TransactWriteItem → Text → Key → Bool
targets w table key = text_eq (table_of w) table && key_eq (key_of w) key

-- What the writes of a transaction make of the item under a key. No two of them share a target.
abbrev pub applied : List TransactWriteItem → Text → Key → Option Item → Option Item
applied [] table key item = item
applied (w ∷ ws) table key item =
    applied ws table key (if targets w table key then write_item w item else item)

abbrev pub conditional_check_failed : Text
conditional_check_failed = codes "ConditionalCheckFailed"

-- The observations of a state, for which the documentation speaks.
pub record View (S : Type 0) : Type 0 where
  -- The item that a consistent read of a table finds under a key.
  pub item : S → Text → Key → Option Item
  -- Whether a transaction has committed under a client token.
  pub seen : S → Text → Bool
  -- The message bodies in a queue.
  pub queued : S → Text → List Text

module _ {S : Type 0} (v : View S) where
  -- The two states agree on every item.
  pub record Same (a b : S) : Type 0 where
    pub same : (table : Text) (key : Key) → v.item b table key ≡ v.item a table key

  abbrev pub PassesIn : S → TransactWriteItem → Type 0
  PassesIn a w = passes (condition_of w) (v.item a (table_of w) (key_of w)) ≡ true

  pub record Applied (ws : List TransactWriteItem) (a b : S) : Type 0 where
    pub passed : All (PassesIn a) ws
    pub written :
        (table : Text) (key : Key) → v.item b table key ≡ applied ws table key (v.item a table key)

pub record Documented (sv : Services) : Type 0 where
  pub view : View sv.State
  pub builds_complete : (w : TransactWriteItem) → sv.builds w ≡ true
  -- A transaction is applied as a whole or not at all, whatever the caller is told.
  pub atomic :
      (token : Option Text) (ws : List TransactWriteItem) (a : sv.State)
      → let b = (sv.transact_write_items token ws a).1 in Same view a b ⊎ Applied view ws a b
  pub committed :
      (token : Text) (ws : List TransactWriteItem) (a : sv.State)
      → let (result, b) = sv.transact_write_items (some token) ws a in
        result ≡ ok tt → view.seen a token ≡ false → Applied view ws a b
  pub committed_once :
      (ws : List TransactWriteItem) (a : sv.State)
      → let (result, b) = sv.transact_write_items none ws a in result ≡ ok tt → Applied view ws a b
  -- A cancelled transaction changes nothing and does not use its token up.
  pub canceled :
      (token : Option Text) (ws : List TransactWriteItem) (reasons : List CancellationReason)
      (a : sv.State)
      → let (result, b) = sv.transact_write_items token ws a in
        result ≡ err (service_error (transaction_canceled_exception reasons))
        → Same view a b × ((t : Text) → view.seen b t ≡ view.seen a t)
  -- The reasons stand in the order of the writes, and name the conditions that failed.
  pub canceled_reason :
      (token : Option Text) (ws : List TransactWriteItem) (reasons : List CancellationReason)
      (a : sv.State) (i : ℕ) (w : TransactWriteItem)
      → (sv.transact_write_items token ws a).0
        ≡ err (service_error (transaction_canceled_exception reasons))
      → get_elem? reasons i ≡ some (some conditional_check_failed)
      → get_elem? ws i ≡ some w
      → passes (condition_of w) (view.item a (table_of w) (key_of w)) ≡ false
  pub update_committed :
      (u : Update) (a : sv.State)
      → let (result, b) = sv.update_item u a in result ≡ ok tt → Applied view (update u ∷ []) a b
  pub update_refused :
      (u : Update) (a : sv.State)
      → let (result, b) = sv.update_item u a in
        result ≡ err (service_error conditional_check_failed_exception)
        → Same view a b × (passes u.condition_expression (view.item a u.table_name u.key) ≡ false)
  pub get_item_reads :
      (table : Text) (key : Key) (a : sv.State) (found : Option Item)
      → (sv.get_item table key a).0 ≡ ok found
      → found ≡ view.item a table key
  pub get_item_keeps :
      (table : Text) (key : Key) (a : sv.State) → Same view a (sv.get_item table key a).1
  pub new_uuid_keeps :
      (a : sv.State)
      → let (id, b) = sv.new_uuid a in
        Same view a b × (view.seen b id ≡ false) × ((t : Text) → view.seen b t ≡ view.seen a t)
  pub random_keeps :
      (bound : ℕ) (a : sv.State)
      → let (r, b) = sv.random bound a in
        (r ≤ bound) × Same view a b × ((t : Text) → view.seen b t ≡ view.seen a t)
  pub sent :
      (queue body : Text) (a : sv.State)
      → let (result, b) = sv.send_message queue body a in
        result ≡ ok tt → Mem body (view.queued b queue)
  pub send_message_keeps :
      (queue body : Text) (a : sv.State) → Same view a (sv.send_message queue body a).1
