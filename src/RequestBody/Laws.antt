-- ===== src/RequestBody/Laws.antt =====
-- The reader gives the bytes of the body, each once and in their order.
use internal_ai_gateway.Base.{
  ℕ, zero, suc, ◌≤◌, ◌≡◌, refl, sym, ap, ◌∙◌, true, List, [], ◌∷◌, ◌++◌, append_assoc, Option, none,
  some, length, length-take, take, drop, take-append-drop, length-drop, is_empty, if◌then◌else◌,
  Result, ok, err, All, arith,
}
use internal_ai_gateway.OpenAiRequest.{IoError}
use internal_ai_gateway.Sse.Drain.{concat}
use internal_ai_gateway.RequestBody.{
  SendResult, sent, Turn, chunk, deadline, failed, body_chunk_bytes, sections, pump_request_body,
  ChannelReader, receive, read, at_end,
}

-- The sections of a chunk are the chunk.
concat-sections :
    (fuel : ℕ) (bytes : List ℕ) → length bytes ≤ fuel → concat (sections fuel bytes) ≡ bytes
unfolding concat sections
concat-sections zero [] h = refl
concat-sections zero (b ∷ bytes) h = absurd (omega arith)
concat-sections (suc fuel) [] h = refl
concat-sections (suc fuel) (b ∷ bytes) h =
    let rest = drop body_chunk_bytes (b ∷ bytes) in
    ap (λ x. take body_chunk_bytes (b ∷ bytes) ++ x)
      (concat-sections fuel rest (omega (arith, h, length-drop body_chunk_bytes (b ∷ bytes))))
    ∙ take-append-drop body_chunk_bytes (b ∷ bytes)

concat-append : (xs ys : List (List ℕ)) → concat (xs ++ ys) ≡ concat xs ++ concat ys
unfolding concat
concat-append [] ys = refl
concat-append (x ∷ xs) ys =
    ap (λ z. x ++ z) (concat-append xs ys) ∙ sym (append_assoc x (concat xs) (concat ys))

-- The body that arrives in full.
abbrev pub IsSent : Turn → Type 0
IsSent (chunk bytes sent) = Unit
IsSent _ = ⊥

abbrev pub body_of : List Turn → List ℕ
body_of [] = []
body_of (chunk bytes result ∷ turns) = bytes ++ body_of turns
body_of (_ ∷ turns) = body_of turns

-- A body that arrives in full is sent in full, without an error.
pub pump_request_body-IsSent :
    (turns : List Turn)
    → All IsSent turns
    → (concat (pump_request_body turns).0 ≡ body_of turns) × ((pump_request_body turns).1 ≡ none)
unfolding pump_request_body concat
pump_request_body-IsSent [] h = (refl, refl)
pump_request_body-IsSent (chunk bytes sent ∷ turns) h =
    let (e, n) = pump_request_body-IsSent turns h.1 in
    (
      concat-append (sections (length bytes) bytes) (pump_request_body turns).0
          ∙ ap (λ x. x ++ concat (pump_request_body turns).0)
              (concat-sections (length bytes) bytes (omega arith))
          ∙ ap (λ x. bytes ++ x) e,
      n,
    )
pump_request_body-IsSent (chunk bytes (SendResult.closed n) ∷ turns) h = absurd h.0
pump_request_body-IsSent (chunk bytes (SendResult.expired n) ∷ turns) h = absurd h.0
pump_request_body-IsSent (deadline ∷ turns) h = absurd h.0
pump_request_body-IsSent (failed ∷ turns) h = absurd h.0

-- The bytes that a reader has not given yet.
abbrev pub left : ChannelReader → List ℕ
left r = r.current ++ concat r.receiver

receive-left :
    (current : List ℕ) (receiver : List (List ℕ))
    → current ++ concat receiver
      ≡ (receive current receiver).0 ++ concat (receive current receiver).1
unfolding receive concat
receive-left [] [] = refl
receive-left [] (section ∷ receiver) = receive-left section receiver
receive-left (b ∷ current) receiver = refl

nothing_received :
    (current : List ℕ) (receiver : List (List ℕ))
    → is_empty (receive current receiver).0 ≡ true
    → (receive current receiver).1 ≡ []
unfolding receive
nothing_received [] [] h = refl
nothing_received [] (section ∷ receiver) h = nothing_received section receiver h
nothing_received (b ∷ current) receiver h = cc

-- What a read may do to a reader. An output without room gets nothing and changes nothing. Another one
-- gets bytes off the front of what is left, at most as many as it holds. It gets none only when nothing
-- is left, and then the terminal error, if there is one, is the answer.
unfoldable pub IsRead : ℕ → ChannelReader → Result IoError (List ℕ) → ChannelReader → Type 0
IsRead zero r result after = (result ≡ ok []) × (after ≡ r)
IsRead (suc n) r (ok []) after = (left r ≡ []) × (r.terminal_error ≡ none) × (left after ≡ [])
IsRead (suc n) r (ok (b ∷ bytes)) after =
    (left r ≡ (b ∷ bytes) ++ left after)
    × (length (b ∷ bytes) ≤ suc n)
    × (after.terminal_error ≡ r.terminal_error)
IsRead (suc n) r (err error) after =
    (left r ≡ []) × (r.terminal_error ≡ some error) × (left after ≡ [])

abbrev answer : ℕ → ChannelReader → List ℕ → List (List ℕ) → Result IoError (List ℕ) × ChannelReader
answer n r current receiver =
    if is_empty current
    then (
      at_end r.terminal_error,
      record { current = []; receiver = receiver; terminal_error = none },
    )
    else (
      ok (take (suc n) current),
      record {
        current = drop (suc n) current;
        receiver = receiver;
        terminal_error = r.terminal_error;
      },
    )

ended-IsRead :
    (n : ℕ) (r : ChannelReader) (error : Option IoError)
    → r.terminal_error ≡ error
    → left r ≡ []
    → IsRead
        (suc n)
        r
        (at_end error)
        (record { current = []; receiver = []; terminal_error = none })
unfolding IsRead concat
ended-IsRead n r none e h = (h, e, refl)
ended-IsRead n r (some error) e h = (h, e, refl)

answer-IsRead :
    (n : ℕ) (r : ChannelReader) (current : List ℕ) (receiver : List (List ℕ))
    → left r ≡ current ++ concat receiver
    → (is_empty current ≡ true → receiver ≡ [])
    → IsRead (suc n) r (answer n r current receiver).0 (answer n r current receiver).1
unfolding IsRead concat
answer-IsRead n r [] [] e k = ended-IsRead n r r.terminal_error refl e
answer-IsRead n r [] (section ∷ receiver) e k = absurd (never (k refl))
  where
    never : section ∷ receiver ≡ [] → ⊥
    never q = cc
answer-IsRead n r (b ∷ current) receiver e k = (
  e
      ∙ ap (λ x. x ++ concat receiver) (sym (take-append-drop (suc n) (b ∷ current)))
      ∙ append_assoc (take (suc n) (b ∷ current)) (drop (suc n) (b ∷ current)) (concat receiver),
  omega (arith, length-take (suc n) (b ∷ current)),
  refl,
)

-- A read of at most n bytes behaves as IsRead says, in every state of the reader.
pub read-IsRead : (n : ℕ) (r : ChannelReader) → IsRead n r (read n r).0 (read n r).1
unfolding read IsRead
read-IsRead zero r = (refl, refl)
read-IsRead (suc n) r =
    answer-IsRead n r (receive r.current r.receiver).0 (receive r.current r.receiver).1
      (receive-left r.current r.receiver) (nothing_received r.current r.receiver)
