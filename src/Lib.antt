-- ===== src/Lib.antt =====
-- The proxy of the internal AI gateway: the accounting that stands between an engineer's request and
-- a provider of language models.
--
-- A request's API key is looked up by its keyed hash (Auth.antt for services/proxy/src/auth.rs and
-- services/proxy/src/api_key.rs, EngineerAuth.antt for services/proxy/src/engineer_auth.rs). It is
-- counted in the engineer's window of requests (RateLimit.antt for services/proxy/src/rate_limit.rs),
-- and the tokens that it may use are put on hold before it goes to the provider. Once the provider has
-- answered, the hold is settled with the tokens that were used. Holds and settlements are transactions
-- of DynamoDB that move three items at once: the counters of the day, the counters of the week, and the
-- reservation's own record. A settlement that fails is queued, and a worker settles it later.
--
--   TokenReservation.antt          services/proxy/src/token_reservation.rs: `TokenReservationManager` with
--                                  `reserve`, `reconcile_reservation`, `reconcile_durably` and their
--                                  retry loops, and `TokenReservation::reconcile`
--   TokenReservation/Writes.antt   the writes of the two transactions of that file
--   TokenReservation/Failures.antt its classification of failed transactions
--   TokenReservation/Worker.antt   services/proxy/src/token_reconciliation.rs: `process_message`
--   TokenReconciliation.antt       the same file: the jobs and the operations of the queue
--   TokenUsage.antt                services/proxy/src/token_usage.rs: `TokenUsageChecker`
--   TokenUsage/Windows.antt        the usage windows and expiry times of that file
--   Streams.antt                   services/proxy/src/streams.rs: the counter of active streams, as the
--                                  interleaved atomic steps of its threads
--   Sse.antt                       services/proxy/src/sse.rs: `take_next_event` and `event_data`
--   OpenAiRequest.antt             services/proxy/src/openai_request.rs: the token budget, the writers that
--                                  limit what is spooled, `JsonKeyLimitReader`; OpenAiRequest/Transform.antt
--                                  `transform_json`, OpenAiRequest/Prepare.antt `prepare_openai_request`
--   Headers.antt                   services/proxy/src/anthropic.rs, services/proxy/src/openai.rs: which headers
--                                  cross the gateway
--   Formats.antt                   what the handlers use of `str` and serde_json, as a parameter
--   Sse/Drain.antt                 the loop of `observe_chunk`; its fuel is the length of the buffer, which
--                                  each event shortens
--   Gateway.antt                   the handlers of services/proxy/src/anthropic.rs and openai.rs: `handle_*`,
--                                  `forward_*`; Gateway/Streaming.antt the task of `usage_recording_stream`,
--                                  Gateway/Responses.antt `into_response`
--   Anthropic.antt, OpenAi.antt    what the two providers' modules differ in, their usage reports and keys
--   Documents.antt                 JSON documents as struson's streaming reader finds them
--   AnthropicRequest.antt          services/proxy/src/anthropic_request.rs; AnthropicRequest/Prepare.antt its
--                                  `prepare_anthropic_request`
--   RequestBody.antt               services/proxy/src/request_body.rs
--   Config.antt                    services/proxy/src/config.rs
-- The other modules hold the proofs: TokenReservation/Effects.antt and Holds.antt and Settlements.antt
-- what the transactions do to the counters, Loops.antt with its children what the retry loops do,
-- Reserve.antt, Reconcile.antt and Cycle.antt the operations as a whole. TokenUsage/Markers.antt,
-- TokenUsage/Windows/Laws.antt, RateLimit/Counting.antt, Auth/Grants.antt, Streams/Counter.antt,
-- Sse/Chunks.antt, Sse/Drain/Laws.antt, Headers/Laws.antt, Gateway/Sends.antt, Gateway/Settles.antt,
-- Gateway/Streaming/Laws.antt, Anthropic/Credentials.antt, Anthropic/Delivery.antt,
-- AnthropicRequest/Images.antt, AnthropicRequest/Files.antt, TokenUsage/Attributes.antt,
-- RequestBody/Laws.antt, OpenAiRequest/Limits.antt and the children of OpenAiRequest/Transform.antt are
-- about the parts that they stand below. Base.antt and its children hold the shared types, tests and
-- lemmas, and Tests.antt the runs on concrete inputs.
--
-- Services.antt takes DynamoDB, SQS, Secrets Manager, the clock, the UUIDs, the random source and `sleep`
-- as one record of operations on one state. An operation of the proxy is a function of that state, to a
-- result and the next state; what it did stays done when it fails. Services/Documented.antt states the
-- documented behaviour that proofs rely on: transactions are atomic, checked against their conditions and
-- idempotent under a client token, and a failed answer leaves open whether they were applied.
-- Services/Memory.antt is a small implementation with all of it (Services/Memory/Laws.antt), on which the
-- tests run the theorems.
-- Expressions of updates and conditions are given by their structure and not as text.
--
-- Numbers are native, with the saturation and the bounds of 64 bits written out where the source has
-- them. A retry loop has its four rounds as fuel. The one of `reconcile_reservation` has the panic of
-- `unreachable!` behind its rounds as an error of its own.
--
-- The way of a request (Gateway.antt) is a run of one request over those services, with the HTTP client, the
-- values of headers, serde_json and struson as further parameters. Where the task of a stream awaits, a list
-- of turns says what it finds: a chunk, an error or the shutdown, with what the client does. Temporary
-- files are parameters with the bytes and the position that a file has. Sums of tokens wrap around as in a
-- release build.
--
-- Not modelled: a handler that is dropped because its client leaves before the answer, whose hold the code
-- then leaves unsettled; the start-up, metrics and tracing, the texts of errors, the endless loop of the
-- worker, and the provider mock of services/provider-mock, which stands in for the providers in load tests.
pub mod RequestBody
pub mod Config
pub mod Headers
pub mod Formats
pub mod Anthropic
pub mod OpenAi
pub mod Gateway
pub mod Base
pub mod Services
pub mod EngineerAuth
pub mod TokenUsage
pub mod TokenReconciliation
pub mod TokenReservation
pub mod RateLimit
pub mod Sse
pub mod Streams
pub mod Auth
pub mod OpenAiRequest
pub mod Documents
pub mod AnthropicRequest
mod Tests
