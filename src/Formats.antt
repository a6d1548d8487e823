-- ===== src/Formats.antt =====
-- What the handlers use of `str` and of serde_json: the decoding of bytes as text, which replaces what is
-- not UTF-8, the tests of characters, and JSON values as serde_json parses them.
use internal_ai_gateway.Base.{ℕ, Bool, List, Option, Text}

pub record Formats : Type 1 where
  pub from_utf8_lossy : List ℕ → Text
  pub into_bytes : Text → List ℕ
  pub is_whitespace : ℕ → Bool
  -- `serde_json::Value`, with `from_slice`, `get` of a name, `as_u64` and `as_str`.
  pub Value : Type 0
  pub from_slice : List ℕ → Option Value
  pub get : Text → Value → Option Value
  pub as_u64 : Value → Option ℕ
  pub as_str : Value → Option Text
