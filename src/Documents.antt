-- ===== src/Documents.antt =====
-- JSON documents as struson's streaming reader finds them, from the front: where a document is malformed,
-- the reader has passed on what stands before.
use internal_ai_gateway.Base.{ℕ, Bool, Option, Text}

mutual
  -- A number is what `next_number::<u64>` makes of it, if it is one.
  pub data Json : Type 0 where
    object : Members → Json
    array : Elements → Json
    string : Text → Json
    number : Option ℕ → Json
    bool : Bool → Json
    null malformed : Json

  pub data Members : Type 0 where
    end_object broken_object : Members
    member : Text → Json → Members → Members

  pub data Elements : Type 0 where
    end_array broken_array : Elements
    element : Json → Elements → Elements

pub record Document : Type 0 where
  pub value : Json
  -- Nothing but white space is behind it.
  pub ends : Bool
