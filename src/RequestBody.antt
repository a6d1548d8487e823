-- ===== src/RequestBody.antt =====
-- services/proxy/src/request_body.rs: a request's body, pumped through a channel to a blocking reader. What the
-- pump awaits is a list of turns; the channel, which is bounded only in that the pump waits, is the list of the
-- sections that were sent. A `current` with its offset is what is left of it.
pub mod Laws
use internal_ai_gateway.Base.{
  ℕ, zero, suc, ◌+◌, ◌*◌, ◌-◌, min, Bool, true, false, List, [], ◌∷◌, ◌++◌, Option, none, some,
  length, take, drop, is_empty, if◌then◌else◌, Result, ok, err,
}
use internal_ai_gateway.OpenAiRequest.{IoError, timed_out, invalid_data}

abbrev pub body_chunk_bytes : ℕ
body_chunk_bytes = 16 * 1024

-- What the pump finds at `stream.next()`: a chunk, an error, or the deadline. A list that ends is the end of
-- the body. For a chunk, what becomes of its sections: they are all sent, the reader is gone behind so
-- many of them, or the deadline comes behind so many of them.
pub data SendResult : Type 0 where
  sent : SendResult
  closed expired : ℕ → SendResult

pub data Turn : Type 0 where
  deadline failed : Turn
  chunk : List ℕ → SendResult → Turn

-- `chunk.chunks(BODY_CHUNK_BYTES)`; each section shortens the chunk, whose length is fuel enough.
unfoldable pub sections : ℕ → List ℕ → List (List ℕ)
sections zero bytes = []
sections (suc fuel) bytes =
    if is_empty bytes
    then []
    else take body_chunk_bytes bytes ∷ sections fuel (drop body_chunk_bytes bytes)

-- `pump_request_body`: the sections that are sent, and the terminal error.
unfoldable pub pump_request_body : List Turn → List (List ℕ) × Option IoError
unfolding sections
pump_request_body [] = ([], none)
pump_request_body (deadline ∷ turns) = ([], some timed_out)
pump_request_body (failed ∷ turns) = ([], some invalid_data)
pump_request_body (chunk bytes sent ∷ turns) =
    let (rest, error) = pump_request_body turns in (sections (length bytes) bytes ++ rest, error)
pump_request_body (chunk bytes (closed n) ∷ turns) = (take n (sections (length bytes) bytes), none)
pump_request_body (chunk bytes (expired n) ∷ turns) =
    (take n (sections (length bytes) bytes), some timed_out)

pub record ChannelReader : Type 0 where
  pub current : List ℕ
  pub receiver : List (List ℕ)
  pub terminal_error : Option IoError

-- `blocking_recv` until a section is not empty.
unfoldable pub receive : List ℕ → List (List ℕ) → List ℕ × List (List ℕ)
receive [] [] = ([], [])
receive [] (section ∷ receiver) = receive section receiver
receive (b ∷ current) receiver = (b ∷ current, receiver)

abbrev pub at_end : Option IoError → Result IoError (List ℕ)
at_end none = ok []
at_end (some error) = err error

-- `read`, with the length of the output: the bytes that are copied. A terminal error is taken.
unfoldable pub read : ℕ → ChannelReader → Result IoError (List ℕ) × ChannelReader
unfolding receive
read zero r = (ok [], r)
read (suc n) r =
    let (current, receiver) = receive r.current r.receiver in
    if is_empty current
    then (
      at_end r.terminal_error,
      record { current = []; receiver = receiver; terminal_error = none },
    )
    else (
      ok (take (suc n) current),
      record {
        current = drop (suc n) current;
        receiver = receiver;
        terminal_error = r.terminal_error;
      },
    )
