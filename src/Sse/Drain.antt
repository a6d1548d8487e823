-- ===== src/Sse/Drain.antt =====
-- The loop of `observe_chunk`, which services/proxy/src/anthropic.rs and services/proxy/src/openai.rs
-- share: every event that has arrived in full is taken from the buffer and observed. Fuel: each event
-- shortens the buffer, so that its length is enough.
pub mod Laws
use internal_ai_gateway.Base.{
  ℕ, zero, suc, ◌+◌, ◌≤◌, ◌<◌, ◌≡◌, refl, sym, ap, ◌∙◌, List, [], ◌∷◌, ◌++◌, All, subst, Option,
  none, some, length, drop, length-append, length-drop, append_assoc, append-nil, arith,
  Option-cases, inl, inr,
}
use internal_ai_gateway.Sse.{
  position, event_separators, with_found, first_separator, take_next_event,
}
use internal_ai_gateway.Sse.Chunks.{take_next_event-append}

-- The bytes of a stream.
unfoldable pub concat : List (List ℕ) → List ℕ
concat [] = []
concat (chunk ∷ chunks) = chunk ++ concat chunks

module _ {U : Type 0} (observe_event : U → List ℕ → U) where
  unfoldable pub drain : ℕ → U → List ℕ → U × List ℕ
  drain zero usage buffer = (usage, buffer)
  drain (suc fuel) usage buffer = elim (take_next_event buffer) [
    | none ↦ (usage, buffer)
    | some (event, rest) ↦ drain fuel (observe_event usage event) rest
  ]

  unfoldable pub observe_chunk : U × List ℕ → List ℕ → U × List ℕ
  unfolding drain
  observe_chunk (usage, buffered_event) chunk =
      let buffer = buffered_event ++ chunk in drain (length buffer) usage buffer

  -- Chunk after chunk, as they arrive.
  unfoldable pub observe_chunks : U × List ℕ → List (List ℕ) → U × List ℕ
  unfolding observe_chunk
  observe_chunks recorder [] = recorder
  observe_chunks recorder (chunk ∷ chunks) = observe_chunks (observe_chunk recorder chunk) chunks
