-- ===== src/Tests/Inputs.antt =====
-- The inputs of the runs.
use internal_ai_gateway.Base.{
  true, [], ◌∷◌, Option, none, some, Text, codes, ◌++◌, length, take, drop, subst, refl, ◌≡◌,
}
use internal_ai_gateway.Services.Memory.{Memory}
use internal_ai_gateway.EngineerAuth.{AuthenticatedEngineer}
use internal_ai_gateway.TokenReconciliation.{TokenReconciliationJob, JobJson}
use internal_ai_gateway.TokenReservation.{TokenReservationManager}

abbrev pub job : TokenReconciliationJob
job = TokenReconciliationJob.usage (codes "job") 86400 7 (codes "ann")

-- An encoding of the jobs that carry a usage alone.
abbrev encode : TokenReconciliationJob → Option Text
encode (TokenReconciliationJob.reservation actual completion daily window budget user weekly) = none
encode (TokenReconciliationJob.usage job_id occurred_at token_count user_id) =
    some (length job_id ∷ occurred_at ∷ token_count ∷ job_id ++ user_id)

abbrev decode : Text → Option TokenReconciliationJob
decode (k ∷ occurred_at ∷ token_count ∷ rest) =
    some (TokenReconciliationJob.usage (take k rest) occurred_at token_count (drop k rest))
decode _ = none

take-length : (i u : Text) → take (length i) (i ++ u) ≡ i
take-length [] u = refl
take-length (x ∷ i) u = rw (take-length i u)

drop-length : (i u : Text) → drop (length i) (i ++ u) ≡ u
drop-length [] u = refl
drop-length (x ∷ i) u = drop-length i u

pub decode-encode :
    (job : TokenReconciliationJob) (body : Text) → encode job ≡ some body → decode body ≡ some job
decode-encode (TokenReconciliationJob.reservation actual completion daily window budget user weekly)
      body h =
    cc
decode-encode (TokenReconciliationJob.usage i o t u) body h =
    subst (λ b. decode b ≡ some (TokenReconciliationJob.usage i o t u)) (body_of h)
      (rw (take-length i u, drop-length i u) refl)
  where
    body_of : {x y : Text} → some x ≡ some y → x ≡ y
    body_of e = cc

abbrev pub usage_json : JobJson
usage_json = record { to_json = encode; from_json = decode; from_json-to_json = decode-encode }

abbrev pub manager : TokenReservationManager
manager = record {
  table_name = codes "usage";
  queue_url = codes "queue";
  json = usage_json;
  token_usage_checker = record { table_name = codes "usage" };
}

abbrev pub ann : AuthenticatedEngineer
ann = record {
  daily_token_limit = some 10;
  enabled = true;
  user_id = codes "ann";
  weekly_token_limit = none;
}

abbrev pub empty : Memory
empty = record {
  items = λ table key. none;
  issued = [];
  committed = [];
  queues = λ queue. [];
  clock = some 86400;
}
