-- ===== src/Tests/Bodies.antt =====
-- Runs of services/proxy/src/request_body.rs.
use internal_ai_gateway.Base.{◌≡◌, refl, List, [], ◌∷◌, none, some, ok}
use internal_ai_gateway.OpenAiRequest.{timed_out}
use internal_ai_gateway.Sse.Drain.{concat}
use internal_ai_gateway.RequestBody.{
  SendResult, sent, Turn, chunk, pump_request_body, ChannelReader, read, receive, sections,
}
use internal_ai_gateway.RequestBody.Laws.{body_of, IsRead, pump_request_body-IsSent, read-IsRead}

abbrev turns : List Turn
turns = chunk (1 ∷ 2 ∷ []) sent ∷ chunk [] sent ∷ chunk (3 ∷ []) sent ∷ []

two_sections : pump_request_body turns ≡ ((1 ∷ 2 ∷ []) ∷ (3 ∷ []) ∷ [], none)
unfolding pump_request_body sections
two_sections = refl

abbrev late_turns : List Turn
late_turns = chunk (1 ∷ []) sent ∷ chunk (2 ∷ []) (SendResult.expired 0) ∷ []

one_section : pump_request_body late_turns ≡ ((1 ∷ []) ∷ [], some timed_out)
unfolding pump_request_body sections
one_section = refl

abbrev reader : ChannelReader
reader = record {
  current = [];
  receiver = [] ∷ (1 ∷ 2 ∷ []) ∷ (3 ∷ []) ∷ [];
  terminal_error = some timed_out;
}

one_byte : (read 1 reader).0 ≡ ok (1 ∷ [])
unfolding read receive
one_byte = refl

pump_request_body-IsSent_example :
    (concat (pump_request_body turns).0 ≡ body_of turns) × ((pump_request_body turns).1 ≡ none)
pump_request_body-IsSent_example = pump_request_body-IsSent turns (tt, (tt, (tt, tt)))

read-IsRead_example : IsRead 2 reader (read 2 reader).0 (read 2 reader).1
read-IsRead_example = read-IsRead 2 reader
