-- ===== src/Services.antt =====
-- What the proxy calls and does not implement: DynamoDB, SQS, Secrets Manager, the clock, UUIDs, the
-- random source and `tokio::time::sleep`, as one parameter with one state. The requests are the
-- values that the source hands to the SDK's builders; an expression text is given by its structure.
pub mod Documented
pub mod Memory
pub mod Counters
pub mod Atomic
use internal_ai_gateway.Base.{ℕ, Bool, List, Option, Text}
use internal_ai_gateway.Base.Actions.{Action}

-- `AttributeValue` of the DynamoDB SDK, with its kinds that the proxy never reads in one.
pub data AttributeValue : Type 0 where
  n s : Text → AttributeValue
  bool : Bool → AttributeValue
  other : AttributeValue

abbrev pub Item : Type 0
Item = List (Text × AttributeValue)

-- The values of the key attributes, by name.
abbrev pub Key : Type 0
Key = List (Text × AttributeValue)

-- A clause `SET #name = :value` or `ADD #name :value` of an update expression.
pub data Clause : Type 0 where
  set_to add : Text → AttributeValue → Clause

-- A condition expression: `attribute_not_exists(#a)`, `#a <= :v`, `#a < :v`, `#a = :v`, `c OR d`.
pub data Condition : Type 0 where
  attribute_not_exists : Text → Condition
  at_most less_than equals : Text → AttributeValue → Condition
  either : Condition → Condition → Condition

pub record Update : Type 0 where
  pub table_name : Text
  pub key : Key
  pub update_expression : List Clause
  pub condition_expression : Option Condition

pub record Put : Type 0 where
  pub table_name : Text
  pub item : Item
  pub condition_expression : Option Condition

-- A member of a transaction.
pub data TransactWriteItem : Type 0 where
  update : Update → TransactWriteItem
  put : Put → TransactWriteItem

-- The `code` of a cancellation reason.
abbrev pub CancellationReason : Type 0
CancellationReason = Option Text

pub data TransactWriteItemsError : Type 0 where
  transaction_canceled_exception : List CancellationReason → TransactWriteItemsError
  unhandled : TransactWriteItemsError

pub data UpdateItemError : Type 0 where
  conditional_check_failed_exception unhandled : UpdateItemError

-- `SdkError`: what the service answered, or a failure in which it gave no answer.
pub data SdkError (E : Type 0) : Type 0 where
  service_error : E → SdkError E
  dispatch_failure : SdkError E

pub record Message : Type 0 where
  pub body : Option Text
  pub receipt_handle : Option Text

pub record Services : Type 1 where
  pub State : Type 0
  -- Whether `build` accepts a write's fields.
  pub builds : TransactWriteItem → Bool
  pub transact_write_items :
      Option Text
      → List TransactWriteItem
      → Action State (SdkError TransactWriteItemsError) (Unit {0})
  pub update_item : Update → Action State (SdkError UpdateItemError) (Unit {0})
  -- A read with `consistent_read(true)`, of the table and the key.
  pub get_item : Text → Key → Action State (SdkError (Unit {0})) (Option Item)
  -- A query of a table's index for a key attribute's value, with a limit.
  pub query :
      Text → Text → Text × AttributeValue → ℕ → Action State (SdkError (Unit {0})) (List Item)
  -- The secret string behind an identifier.
  pub get_secret_value : Text → Action State (SdkError (Unit {0})) (Option Text)
  pub send_message : Text → Text → Action State (SdkError (Unit {0})) (Unit {0})
  pub receive_message : Text → Action State (SdkError (Unit {0})) (List Message)
  pub delete_message : Text → Text → Action State (SdkError (Unit {0})) (Unit {0})
  -- `SystemTime::now()` in seconds since the epoch, if it lies after it.
  pub system_time : State → Option ℕ
  pub new_uuid : State → Text × State
  -- `fastrand::u64(0..=bound)`.
  pub random : ℕ → State → ℕ × State
  -- `sleep`, in milliseconds: other clients may act meanwhile.
  pub sleep : ℕ → State → State
