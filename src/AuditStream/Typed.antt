-- ===== src/AuditStream/Typed.antt =====
-- The table, against a description of it by typed events.
use Prim.Native.String as Text
use text.Mathlib.Text.{◌==◌ as str_eq}
use block_chain.Common.{
  ℕ, suc, String, Bool, false, ◌||◌, List, [], ◌∷◌, map, if◌then◌else◌, ◌≡◌, refl, inl, inr,
  Bool-cases,
}
use block_chain.Js.{
  Engine, Value, Items, nil, cons, items, string, number, array, object, Fields, Number, integer,
  pos, get, contains, slice_first, slice_last, slice_to, slice_from_end, to_text, Result, ok,
}
use block_chain.AuditApi.{
  AuditEvent, ProjectionStatus, canonical, unfinalized, uncertain, status_text,
}
use block_chain.AuditApi.Contract.{Carries}
use block_chain.AuditStream.{Stream}
use block_chain.AuditStream.Table.{
  Row, mentions, is_shown, filter_items, filtered_events, shortened, row_of, rows_of, table,
}

-- The value carries the event, whose identifier is not empty.
abbrev pub Shows : Value → AuditEvent → Type 0
Shows v e = (fs : Fields) × (v ≡ object fs) × Carries fs e × (str_eq e.event_id "" ≡ false)

abbrev pub AllShow : List Value → List AuditEvent → Type 0
AllShow [] [] = Unit
AllShow [] (e ∷ es) = ⊥
AllShow (v ∷ vs) [] = ⊥
AllShow (v ∷ vs) (e ∷ es) = Shows v e × AllShow vs es

status_text-nonempty : (s : ProjectionStatus) → str_eq (status_text s) "" ≡ false
status_text-nonempty canonical = refl
status_text-nonempty unfinalized = refl
status_text-nonempty uncertain = refl

-- `react_child` shows a text as it is, and a number as the engine writes it.
module _ (js : Engine) (lower : String → String) (react_child : Value → Result String) where
  abbrev pub is_match : String → AuditEvent → Bool
  is_match filter_text e =
      contains (lower e.event_name) (lower filter_text)
      || contains (lower e.transaction_hash) (lower filter_text)

  abbrev pub ends_of : ℕ → ℕ → String → String
  ends_of m n s = Text.◌++◌ (slice_first m s) (Text.◌++◌ "..." (slice_last n s))

  abbrev pub typed_row : AuditEvent → Row
  typed_row e = record {
    key = e.event_id;
    status = status_text e.projection_status;
    event_name = e.event_name;
    block_number = Text.◌++◌ "#" (js.show_number (integer (pos e.block_number)));
    transaction_hash = ends_of 14 8 e.transaction_hash;
    contract_address = ends_of 10 6 e.contract_address;
    log_index = Text.◌++◌ "[" (Text.◌++◌ (js.show_number (integer (pos e.log_index))) "]");
  }

  abbrev pub matches : String → List AuditEvent → List AuditEvent
  matches filter_text [] = []
  matches filter_text (e ∷ es) =
      if is_match filter_text e then e ∷ matches filter_text es else matches filter_text es

  is_shown-Shows :
      (filter_text : String) (v : Value) (e : AuditEvent)
      → Shows v e
      → is_shown js lower react_child filter_text v ≡ ok (is_match filter_text e)
  unfolding is_shown mentions get
  is_shown-Shows filter_text v e (fs, v_eq, c, id) =
      elim (Bool-cases (contains (lower e.event_name) (lower filter_text))) [
        | inl named ↦ rw (v_eq, c.event_name, named) refl
        | inr other ↦ rw (v_eq, c.event_name, c.transaction_hash, other) refl
      ]

  filter_items-AllShow :
      (filter_text : String) (vs : Items) (es : List AuditEvent)
      → AllShow (items vs) es
      → (ws : List Value) × (filter_items js lower react_child filter_text vs ≡ ok ws)
        × AllShow ws (matches filter_text es)
  unfolding filter_items
  filter_items-AllShow filter_text nil [] h = ([], refl, tt)
  filter_items-AllShow filter_text nil (e ∷ es) h = absurd h
  filter_items-AllShow filter_text (cons v vs) [] h = absurd h
  filter_items-AllShow filter_text (cons v vs) (e ∷ es) (shows, rest) =
      let (ws, found, all) = filter_items-AllShow filter_text vs es rest in
      elim (Bool-cases (is_match filter_text e)) [
        | inl match ↦
            rw (is_shown-Shows filter_text v e shows, found, match) (v ∷ ws, refl, (shows, all))
        | inr other ↦ rw (is_shown-Shows filter_text v e shows, found, other) (ws, refl, all)
      ]

  module _ (shows_text : (s : String) → react_child (string s) ≡ ok s)
      (shows_number : (n : Number) → react_child (number n) ≡ ok (js.show_number n)) where
    shortened-string :
        (m n : ℕ) (s : String) → shortened js lower react_child m n (string s) ≡ ok (ends_of m n s)
    unfolding shortened slice_to slice_from_end
    shortened-string m n s = rw (shows_text (slice_first m s), shows_text (slice_last n s)) refl

    row_of-Shows :
        (idx : ℕ) (v : Value) (e : AuditEvent)
        → Shows v e
        → row_of js lower react_child idx v ≡ ok (typed_row e)
    unfolding row_of get to_text
    row_of-Shows idx v e (fs, v_eq, c, id) =
        rw
          (
            v_eq,
            c.event_id,
            id,
            c.projection_status,
            status_text-nonempty e.projection_status,
            shows_text (status_text e.projection_status),
            c.event_name,
            shows_text e.event_name,
            c.block_number,
            shows_number (integer (pos e.block_number)),
            c.transaction_hash,
            shortened-string 14 8 e.transaction_hash,
            c.contract_address,
            shortened-string 10 6 e.contract_address,
            c.log_index,
            shows_number (integer (pos e.log_index)),
          )
          refl

    rows_of-AllShow :
        (idx : ℕ) (vs : List Value) (es : List AuditEvent)
        → AllShow vs es
        → rows_of js lower react_child idx vs ≡ ok (map typed_row es)
    unfolding rows_of
    rows_of-AllShow idx [] [] h = refl
    rows_of-AllShow idx [] (e ∷ es) h = absurd h
    rows_of-AllShow idx (v ∷ vs) [] h = absurd h
    rows_of-AllShow idx (v ∷ vs) (e ∷ es) (shows, rest) =
        rw (row_of-Shows idx v e shows, rows_of-AllShow (suc idx) vs es rest) refl

    -- Where the stream holds an array of well-typed events, the table that the component renders from the
    -- untyped values is that of the typed events: one row for each event whose name or transaction hash
    -- has the search text in it, upper and lower case aside, in the order of the events; provided that React
    -- shows texts as they are and numbers as the language writes them.
    pub table-matches :
        (s : Stream) (vs : Items) (es : List AuditEvent)
        → s.events ≡ array vs
        → AllShow (items vs) es
        → table js lower react_child s ≡ ok (map typed_row (matches s.filter_text es))
    unfolding table filtered_events
    table-matches s vs es events_eq h =
        let (ws, found, all) = filter_items-AllShow s.filter_text vs es h in
        rw (events_eq, found, rows_of-AllShow 0 ws (matches s.filter_text es) all) refl
