-- ===== src/Sse.antt =====
-- services/proxy/src/sse.rs: server-sent events cut out of a buffer of bytes. The buffer that the source
-- mutates is an argument and a result. The decoding of the bytes as text, which replaces what is not
-- UTF-8, is a parameter.
pub mod Chunks
pub mod Drain
use internal_ai_gateway.Base.{
  ℕ, suc, ◌+◌, Bool, true, false, ◌||◌, List, [], ◌∷◌, ◌++◌, Option, none, some, Text, codes,
  length, take, drop, ltb, ◌==◌, if◌then◌else◌, starts_with, strip_prefix, trim_start, join,
  map_option, is_empty,
}

-- `windows(n).position(|window| window == separator)`.
unfoldable pub position : List ℕ → List ℕ → Option ℕ
unfolding starts_with
position separator [] = none
position separator (x ∷ xs) =
    let rest = position separator xs in
    if starts_with separator (x ∷ xs) then some 0 else map_option suc rest

abbrev pub event_separators : List (List ℕ)
event_separators =
    (13 ∷ 10 ∷ 13 ∷ 10 ∷ [])
    ∷ (13 ∷ 10 ∷ 10 ∷ [])
    ∷ (10 ∷ 13 ∷ 10 ∷ [])
    ∷ (10 ∷ 10 ∷ [])
    ∷ (13 ∷ 13 ∷ [])
    ∷ []

-- `min_by_key` on the position: the first of the least.
abbrev pub earlier : ℕ × ℕ → Option (ℕ × ℕ) → ℕ × ℕ
earlier p none = p
earlier (i, m) (some (j, n)) = if ltb j i then (j, n) else (i, m)

abbrev pub with_found : Option ℕ → ℕ → Option (ℕ × ℕ) → Option (ℕ × ℕ)
with_found none n rest = rest
with_found (some i) n rest = some (earlier (i, n) rest)

-- The first of the least positions at which one of the separators stands, with its length.
unfoldable pub first_separator : List (List ℕ) → List ℕ → Option (ℕ × ℕ)
unfolding position
first_separator [] buffer = none
first_separator (separator ∷ separators) buffer =
    with_found (position separator buffer) (length separator) (first_separator separators buffer)

abbrev pub cut : List ℕ → Option (ℕ × ℕ) → Option (List ℕ × List ℕ)
cut buffer none = none
cut buffer (some (event_end, separator_length)) =
    some (take event_end buffer, drop (event_end + separator_length) buffer)

-- The event, and the buffer that is left.
unfoldable pub take_next_event : List ℕ → Option (List ℕ × List ℕ)
unfolding first_separator
take_next_event buffer = cut buffer (first_separator event_separators buffer)

-- `split(['\r', '\n'])`: the pieces between the line ends, the empty ones too.
abbrev cons_line : ℕ → List Text → List Text
cons_line c [] = (c ∷ []) ∷ []
cons_line c (line ∷ lines) = (c ∷ line) ∷ lines

unfoldable pub split_lines : Text → List Text
split_lines [] = [] ∷ []
split_lines (c ∷ cs) =
    if (c == 13) || (c == 10) then [] ∷ split_lines cs else cons_line c (split_lines cs)

module _ (from_utf8_lossy : List ℕ → Text) (into_bytes : Text → List ℕ)
    (is_whitespace : ℕ → Bool) where
  abbrev with_line : Option Text → List Text → List Text
  with_line none rest = rest
  with_line (some content) rest = trim_start is_whitespace content ∷ rest

  unfoldable pub data_lines : List Text → List Text
  data_lines [] = []
  data_lines (line ∷ lines) = with_line (strip_prefix (codes "data:") line) (data_lines lines)

  unfoldable pub event_data : List ℕ → Option (List ℕ)
  event_data event =
      let lines = data_lines (split_lines (from_utf8_lossy event)) in
      if is_empty lines then none else some (into_bytes (join 10 lines))
