-- ===== src/TokenReconciliation.antt =====
-- services/proxy/src/token_reconciliation.rs: the reconciliation jobs and their queue. The JSON
-- encoding of a job is serde's, a parameter with the law that decoding undoes encoding.
use internal_ai_gateway.Base.{ℕ, ◌≡◌, List, Option, some, Text, ok_or}
use internal_ai_gateway.Base.Actions.{Action, ◌>>=◌, pure, map_err_of}
use internal_ai_gateway.Services.{Services, Message}

pub data TokenReconciliationJob : Type 0 where
  reservation :
      (actual_tokens : Option ℕ) (completion_token daily_window reservation_window : Text)
      (token_budget : ℕ) (user_id weekly_window : Text)
      → TokenReconciliationJob
  usage : (job_id : Text) (occurred_at token_count : ℕ) (user_id : Text) → TokenReconciliationJob

pub data TokenReconciliationQueueError : Type 0 where
  serialize send receive delete : TokenReconciliationQueueError

-- `serde_json::to_string` and `serde_json::from_str` at jobs.
pub record JobJson : Type 0 where
  pub to_json : TokenReconciliationJob → Option Text
  pub from_json : Text → Option TokenReconciliationJob
  pub from_json-to_json :
      (job : TokenReconciliationJob) (body : Text)
      → to_json job ≡ some body
      → from_json body ≡ some job

module _ (sv : Services) where
  open sv use {State}

  unfoldable pub enqueue :
      JobJson
      → Text
      → TokenReconciliationJob
      → Action State TokenReconciliationQueueError (Unit {0})
  enqueue json queue_url job = do
    body ← pure (ok_or (json.to_json job) serialize)
    map_err_of (λ _. send) (sv.send_message queue_url body)

  -- The missing list of an answer is the empty one. A call asks for at most ten messages.
  unfoldable pub receive_jobs : Text → Action State TokenReconciliationQueueError (List Message)
  receive_jobs queue_url = map_err_of (λ _. receive) (sv.receive_message queue_url)

  unfoldable pub delete_job : Text → Text → Action State TokenReconciliationQueueError (Unit {0})
  delete_job queue_url receipt_handle =
      map_err_of (λ _. delete) (sv.delete_message queue_url receipt_handle)
