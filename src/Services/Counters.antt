-- ===== src/Services/Counters.antt =====
-- What the writes of a transaction do to the items of the token usage table and to their counters.
use internal_ai_gateway.Base.{
  ◌≡◌, refl, ap, true, false, List, [], ◌∷◌, Option, none, some, Text, text_eq, text_eq_refl,
  text_eq_iff, lookup, lookup-insert, if◌then◌else◌, arith, unwrap_or, All,
}
use internal_ai_gateway.Base.Int.{◌+ℤ◌}
use internal_ai_gateway.Base.Decimal.{integer, int_to_string}
use internal_ai_gateway.Base.Decimal.Laws.{integer-int_to_string}
use internal_ai_gateway.Services.{
  AttributeValue, n, Item, Key, set_to, add, TransactWriteItem, update, Update,
}
use internal_ai_gateway.Services.Documented.{
  number, count, apply_clause, apply_clauses, key_eq, table_of, key_of, write_item, targets,
  applied,
}
use internal_ai_gateway.TokenUsage.{usage_key, user_id_attribute, usage_window_attribute}

-- `ADD` raises the counter that it names and no other.
pub count-add :
    (name k t : Text) (item : Item)
    → count name (some (apply_clause (add k (n t)) item))
      ≡ (if text_eq k name then count name (some item) +ℤ integer t else count name (some item))
unfolding count
count-add name k t item = ground (
  arith,
  text_eq_iff k name,
  lookup-insert k name (n (int_to_string (number (lookup k item) +ℤ integer t))) item,
  integer-int_to_string (number (lookup k item) +ℤ integer t),
)

pub count-set :
    (name k : Text) (v : AttributeValue) (item : Item)
    → text_eq k name ≡ false
    → count name (some (apply_clause (set_to k v) item)) ≡ count name (some item)
unfolding count
count-set name k v item h = ap number (rw (lookup-insert k name v item, h) refl)

-- The item that an update starts from: a missing one has its key attributes alone.
abbrev pub base : Update → Option Item → Item
base u old = unwrap_or old u.key

pub write_item-update :
    (u : Update) (old : Option Item)
    → write_item (update u) old ≡ some (apply_clauses u.update_expression (base u old))
write_item-update u none = refl
write_item-update u (some item) = refl

pub key_eq-usage_key_self :
    (user window : Text) → key_eq (usage_key user window) (usage_key user window) ≡ true
unfolding text_eq
key_eq-usage_key_self user window = rw (text_eq_refl user, text_eq_refl window) refl

pub key_eq-usage_key_ne :
    (user window window' : Text)
    → text_eq window window' ≡ false
    → key_eq (usage_key user window) (usage_key user window') ≡ false
unfolding text_eq
key_eq-usage_key_ne user window window' h = rw (text_eq_refl user, h) refl

text_eq_symm : (a b : Text) → text_eq a b ≡ false → text_eq b a ≡ false
text_eq_symm a b h = ground (arith, text_eq_iff a b, text_eq_iff b a)

-- Writes aimed at three windows of one user reach one item each.
module _ (table user x y z : Text) (wx wy wz : TransactWriteItem) (tx : table_of wx ≡ table)
    (ty : table_of wy ≡ table) (tz : table_of wz ≡ table) (kx : key_of wx ≡ usage_key user x)
    (ky : key_of wy ≡ usage_key user y) (kz : key_of wz ≡ usage_key user z)
    (xy : text_eq x y ≡ false) (xz : text_eq x z ≡ false) (yz : text_eq y z ≡ false) where
  abbrev three : List TransactWriteItem
  three = wx ∷ wy ∷ wz ∷ []

  pub applied-first : (i : Option Item) → applied three table (usage_key user x) i ≡ write_item wx i
  applied-first i = ground (
    arith,
    text_eq_refl table,
    key_eq-usage_key_self user x,
    key_eq-usage_key_ne user y x (text_eq_symm x y xy),
    key_eq-usage_key_ne user z x (text_eq_symm x z xz),
  )

  pub applied-second :
      (i : Option Item) → applied three table (usage_key user y) i ≡ write_item wy i
  applied-second i = ground (
    arith,
    text_eq_refl table,
    key_eq-usage_key_self user y,
    key_eq-usage_key_ne user x y xy,
    key_eq-usage_key_ne user z y (text_eq_symm y z yz),
  )

  pub applied-third : (i : Option Item) → applied three table (usage_key user z) i ≡ write_item wz i
  applied-third i = ground (
    arith,
    text_eq_refl table,
    key_eq-usage_key_self user z,
    key_eq-usage_key_ne user x z xz,
    key_eq-usage_key_ne user y z yz,
  )

-- An item that no write is aimed at stays.
pub applied-others :
    (ws : List TransactWriteItem) (table : Text) (key : Key) (i : Option Item)
    → All (λ w. targets w table key ≡ false) ws
    → applied ws table key i ≡ i
applied-others [] table key i h = refl
applied-others (w ∷ ws) table key i h = rw h.0 (applied-others ws table key i h.1)

-- A new item has no counter but its key.
pub count-base :
    (name user window : Text) (old : Option Item)
    → text_eq user_id_attribute name ≡ false
    → text_eq usage_window_attribute name ≡ false
    → count name (some (unwrap_or old (usage_key user window))) ≡ count name old
unfolding count lookup
count-base name user window none hu hw = rw (hu, hw) refl
count-base name user window (some item) hu hw = refl
