-- ===== src/Tests/Gateway.antt =====
-- Runs of the theorems on the way of a request through the gateway.
use mathlib.Core.List.Memᴰ.{Memᴰ, head}
use internal_ai_gateway.Base.{
  ℕ, ◌+◌, ◌≡◌, ◌≢◌, ◌⊎◌, ◌↔◌, refl, true, false, Bool, List, [], ◌∷◌, ◌++◌, none, some, Text, ok,
  codes, ◌==◌, leb, if◌then◌else◌, to_ascii_lowercase, u64_max, arith,
}
use internal_ai_gateway.Base.Actions.{Action}
use internal_ai_gateway.Base.Decimal.{to_string}
use internal_ai_gateway.Services.{n}
use internal_ai_gateway.Services.Memory.{Memory, memory}
use internal_ai_gateway.Tests.Inputs.{ann, empty, manager}
use internal_ai_gateway.Tests.Services.{directory, hash}
use internal_ai_gateway.Formats.{Formats}
use internal_ai_gateway.Headers.{HeaderMap, forwarded, should_forward_openai_request_header}
use internal_ai_gateway.Headers.Laws.{IsNamed, withheld, forwarded_to_openai_iff}
use internal_ai_gateway.TokenUsage.{token_count_from_attribute}
use internal_ai_gateway.TokenUsage.Attributes.{token_count_from_attribute-to_string}
use internal_ai_gateway.TokenReservation.{TokenReservation, reconcile}
use internal_ai_gateway.Streams.{Guard, release}
use internal_ai_gateway.Sse.{take_next_event}
use internal_ai_gateway.Sse.Drain.{observe_chunk, concat}
use internal_ai_gateway.Sse.Drain.Laws.{observe_chunk_complete}
use internal_ai_gateway.Gateway.{
  Http, Provider, Request, Gateway, AppState, handle, try_start_owned, too_many_active_streams,
}
use internal_ai_gateway.Gateway.Sends.{
  handle-IsAdmitted, IsAdmitted, IsUnadmitted, try_start_owned_lem,
}
use internal_ai_gateway.Gateway.Settles.{IsBalanced, handle-IsBalanced}
use internal_ai_gateway.Gateway.Responses.{
  PreparationTests, into_response, IsRefusal, IsBlamed, IsConcealed, into_response-IsBlamed,
}
use internal_ai_gateway.Gateway.Streaming.{Turn, chunk, delivered, disconnected, run_task}
use internal_ai_gateway.Gateway.Streaming.Laws.{
  chunks, IsPassedOn, taken_items, reported, run_task-settles, run_task-cut,
}
use internal_ai_gateway.Anthropic.{AnthropicProxy, anthropic_provider}
use internal_ai_gateway.Anthropic.Credentials.{openai_key}
use internal_ai_gateway.Anthropic.Handlers
use internal_ai_gateway.Anthropic.Handlers.{Upload, handle_messages}
use internal_ai_gateway.Anthropic.Delivery.{IsDelivered, handle_messages-IsDelivered}
use internal_ai_gateway.Tests.Preparation.{files, files-IsKept, parse, reads}
use internal_ai_gateway.OpenAi.{OpenAiProxy, openai_provider}

-- A provider that answers every request with success, over headers whose values are texts.
abbrev http : Http Text Memory
http = record {
  send = λ request a. (some (record { status = 200; headers = [] }), a);
  bytes = λ answer a. (some (codes "{}"), a);
  builds = λ status headers. true;
  header_value = λ t. t;
  to_str = λ t. some t;
  is_whitespace = λ c. c == 32;
  exchange_failures = 2;
}

abbrev prepare : List ℕ → Action Memory (Unit {0}) (List ℕ × Bool × ℕ)
prepare body a = (ok (body, true, 5), a)

abbrev provider : Provider (List ℕ) (Unit {0}) Memory
provider = record {
  url = codes "https://provider/v1";
  credential = (codes "x-api-key", codes "secret");
  should_forward = λ name names. true;
  prepare = prepare;
  completed_response_tokens = λ status body. some 3;
}

abbrev app : AppState
app = record {
  hasher = record { secret = [] };
  engineer_auth = record {
    engineers_table_name = codes "engineers";
    engineers_api_key_index_name = codes "by_hash";
  };
  rate_limiter = record { requests_per_window = 5; table_name = codes "limits"; window = 60 };
  max_active_streams = 2;
  reservation_manager = manager;
}

abbrev gateway : Gateway Text Memory
gateway = record { services = empty; active_streams = 1; sent = []; spawned = [] }

abbrev request : Request Text (List ℕ)
request = record { headers = (codes "x-api-key", codes "iag_1") ∷ []; body = codes "{}" }

handle-IsAdmitted_example :
    (((handle directory http provider app hash request gateway).1.sent ≡ gateway.sent)
      × IsUnadmitted directory http provider app hash request gateway)
    ⊎ IsAdmitted directory http provider app hash request gateway
        (handle directory http provider app hash request gateway).1.sent
handle-IsAdmitted_example = handle-IsAdmitted directory http provider app hash request gateway

handle-IsBalanced_example :
    IsBalanced directory http provider app gateway
      (handle directory http provider app hash request gateway).1
handle-IsBalanced_example = handle-IsBalanced directory http provider app hash request gateway

try_start_owned_lem_example :
    try_start_owned 2 3 1
    ≡ (if leb 2 1 then (none, 1) else (some (record { released = false }), 1 + 1))
try_start_owned_lem_example = try_start_owned_lem 2 3 1

abbrev guard : Guard
guard = record { released = false }

abbrev hold : TokenReservation
hold = record {
  completion_token = codes "c";
  daily_window = codes "day";
  engineer = ann;
  occurred_at = 86400;
  reservation_window = some (codes "reservation#1");
  token_budget = 5;
  weekly_window = codes "week";
}

-- What the events of a stream carry, counted.
abbrev count_event : ℕ → List ℕ → ℕ
count_event seen event = seen + 1

abbrev event : List ℕ
event = codes "data: a" ++ 10 ∷ 10 ∷ []

abbrev turns : List Turn
turns = chunk event delivered ∷ chunk event disconnected ∷ []

run_task-settles_example :
    ((run_task 0 count_event some memory manager hold guard turns empty 1).1
      ≡ (reconcile memory manager hold
          (reported 0 count_event some memory manager (chunks turns))
          empty).1)
    × ((run_task 0 count_event some memory manager hold guard turns empty 1).2
        ≡ (release guard 1).1)
    × ((run_task 0 count_event some memory manager hold guard turns empty 1).0 ≡ taken_items turns)
    × IsPassedOn 0 count_event some
        (run_task 0 count_event some memory manager hold guard turns empty 1).0
        (chunks turns)
run_task-settles_example =
    run_task-settles 0 count_event some memory manager hold guard turns empty 1 (tt, (tt, tt))

abbrev at_once : List Turn
at_once = chunk (event ++ event) delivered ∷ []

run_task-cut_example :
    (run_task 0 count_event some memory manager hold guard turns empty 1).1
    ≡ (run_task 0 count_event some memory manager hold guard at_once empty 1).1
unfolding concat
run_task-cut_example =
    run_task-cut 0 count_event some memory manager hold guard turns at_once empty 1 (tt, (tt, tt))
      (tt, tt) refl

observe_chunk_complete_example :
    take_next_event (observe_chunk count_event (0, []) (event ++ codes "data")).1 ≡ none
observe_chunk_complete_example = observe_chunk_complete count_event 0 [] (event ++ codes "data")

abbrev headers : HeaderMap Text
headers =
    (codes "connection", codes "close, X-Trace")
    ∷ (codes "x-trace", codes "1")
    ∷ (codes "accept", codes "*")
    ∷ []

forwarded_to_openai_iff_example :
    Memᴰ
      (codes "accept", codes "*")
      (forwarded some (λ c. c == 32) should_forward_openai_request_header headers)
    ↔ (Memᴰ (codes "accept", codes "*") headers
        × ¬ Memᴰ (codes "accept") withheld
        × (to_ascii_lowercase (codes "accept") ≢ codes "x-api-key")
        × ¬ IsNamed some (λ c. c == 32) headers (codes "accept"))
forwarded_to_openai_iff_example =
    forwarded_to_openai_iff some (λ c. c == 32) headers (codes "accept") (codes "*")

-- A reading of JSON that finds nothing.
abbrev formats : Formats
formats = record {
  from_utf8_lossy = λ bytes. bytes;
  into_bytes = λ text. text;
  is_whitespace = λ c. c == 32;
  Value = Unit {0};
  from_slice = λ bytes. none;
  get = λ name value. none;
  as_u64 = λ value. none;
  as_str = λ value. none;
}

abbrev anthropic : AnthropicProxy
anthropic = record { api_key = codes "secret"; messages_url = codes "https://provider/v1" }

abbrev upload : Request Text Upload
upload = record {
  headers = (codes "x-api-key", codes "iag_1") ∷ [];
  body = record { worker_stops = false; reads = reads };
}

handle_messages-IsDelivered_example :
    (((handle_messages directory http app formats anthropic files parse hash upload gateway).1.sent
        ≡ gateway.sent)
      × IsUnadmitted directory http
          (anthropic_provider formats anthropic (Handlers.prepare files parse))
          app
          hash
          upload
          gateway)
    ⊎ IsDelivered directory http app formats anthropic files parse files-IsKept hash upload gateway
        (handle_messages directory http app formats anthropic files parse hash upload
          gateway).1.sent
handle_messages-IsDelivered_example =
    handle_messages-IsDelivered directory http app formats anthropic files parse files-IsKept hash
      upload gateway

abbrev openai : OpenAiProxy
openai = record {
  api_key = codes "secret";
  default_max_completion_tokens = 10;
  chat_completions_url = codes "https://provider/v1";
}

openai_key_example : codes "Bearer secret" ≡ http.header_value (codes "Bearer " ++ codes "secret")
unfolding openai_provider
openai_key_example =
    openai_key directory http app formats openai (λ default. prepare) request.headers (codes "{}")
      (codes "Bearer secret") (head refl)

abbrev tests : PreparationTests (Unit {0})
tests = record {
  is_request_too_large = λ e. true;
  is_upload_timeout = λ e. false;
  is_client_error = λ e. false;
}

into_response-IsBlamed_example :
    (IsRefusal tests (λ e. []) (codes "failed") too_many_active_streams
      × IsBlamed tests
          (λ e. [])
          (codes "failed")
          (into_response tests (λ e. []) (codes "failed") too_many_active_streams))
    ⊎ (¬ IsRefusal tests (λ e. []) (codes "failed") too_many_active_streams
        × IsConcealed tests
            (λ e. [])
            (codes "failed")
            (into_response tests (λ e. []) (codes "failed") too_many_active_streams))
into_response-IsBlamed_example =
    into_response-IsBlamed tests (λ e. []) (codes "failed") too_many_active_streams

token_count_from_attribute-to_string_example :
    token_count_from_attribute (n (to_string u64_max)) ≡ ok u64_max
token_count_from_attribute-to_string_example =
    token_count_from_attribute-to_string u64_max (omega arith)
