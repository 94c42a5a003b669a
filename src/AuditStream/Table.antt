-- ===== src/AuditStream/Table.antt =====
-- The search and the rows of the table. `react_child` is what React shows of a value among an element's
-- children, which throws for an object.
use Prim.Native.String as Text
use block_chain.Common.{ℕ, suc, String, Bool, true, false, List, [], ◌∷◌}
use block_chain.Js.{
  Engine, Value, number, string, array, Items, nil, cons, integer, pos, or_else, get, slice_to,
  slice_from_end, to_text, type_error, contains, Result, ok, ◌>>=◌,
}
use block_chain.AuditStream.{Stream}

pub record Row : Type 0 where
  pub key : String
  pub status : String
  pub event_name : String
  pub block_number : String
  pub transaction_hash : String
  pub contract_address : String
  pub log_index : String

module _ (js : Engine) (lower : String → String) (react_child : Value → Result String) where
  -- `v.toLowerCase()`: only a text has the method.
  abbrev lowered : Value → Result String
  lowered (string s) = ok (lower s)
  lowered _ = type_error js "toLowerCase"

  unfoldable pub mentions : String → Value → String → Result Bool
  unfolding get contains
  mentions key e filter_text = do
    v ← get js e key
    s ← lowered v
    ok (contains s (lower filter_text))

  -- `a || b` of two tests.
  abbrev or_test : Bool → Result Bool → Result Bool
  or_test true r = ok true
  or_test false r = r

  unfoldable pub is_shown : String → Value → Result Bool
  unfolding mentions
  is_shown filter_text e = do
    named ← mentions "event_name" e filter_text
    or_test named (mentions "transaction_hash" e filter_text)

  abbrev pub cons_if : Bool → Value → List Value → List Value
  cons_if true e es = e ∷ es
  cons_if false e es = es

  unfoldable pub filter_items : String → Items → Result (List Value)
  unfolding is_shown
  filter_items filter_text nil = ok []
  filter_items filter_text (cons e es) = do
    shown ← is_shown filter_text e
    rest ← filter_items filter_text es
    ok (cons_if shown e rest)

  -- `events.filter(…)`: only an array has the method.
  unfoldable pub filtered_events : String → Value → Result (List Value)
  unfolding filter_items
  filtered_events filter_text (array vs) = filter_items filter_text vs
  filtered_events filter_text v = type_error js "filter"

  -- `{v.slice(0, m)}...{v.slice(-n)}`.
  unfoldable pub shortened : ℕ → ℕ → Value → Result String
  unfolding slice_to slice_from_end
  shortened m n v = do
    first ← slice_to js v m
    a ← react_child first
    last ← slice_from_end js v n
    b ← react_child last
    ok (Text.◌++◌ a (Text.◌++◌ "..." b))

  -- The row of an event that stands at a position.
  unfoldable pub row_of : ℕ → Value → Result Row
  unfolding get to_text shortened
  row_of idx e = do
    id ← get js e "event_id"
    key ← to_text js (or_else id (number (integer (pos idx))))
    projection_status ← get js e "projection_status"
    status ← react_child (or_else projection_status (string "canonical"))
    name ← get js e "event_name"
    event_name ← react_child name
    block ← get js e "block_number"
    block_number ← react_child block
    hash ← get js e "transaction_hash"
    transaction_hash ← shortened 14 8 hash
    address ← get js e "contract_address"
    contract_address ← shortened 10 6 address
    log ← get js e "log_index"
    log_index ← react_child log
    ok (record {
      key = key;
      status = status;
      event_name = event_name;
      block_number = Text.◌++◌ "#" block_number;
      transaction_hash = transaction_hash;
      contract_address = contract_address;
      log_index = Text.◌++◌ "[" (Text.◌++◌ log_index "]");
    })

  unfoldable pub rows_of : ℕ → List Value → Result (List Row)
  unfolding row_of
  rows_of idx [] = ok []
  rows_of idx (e ∷ es) = do row ← row_of idx e; rows ← rows_of (suc idx) es; ok (row ∷ rows)

  -- The table that the component renders.
  unfoldable pub table : Stream → Result (List Row)
  unfolding filtered_events rows_of
  table s = do shown ← filtered_events s.filter_text s.events; rows_of 0 shown
