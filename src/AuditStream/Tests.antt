-- ===== src/AuditStream/Tests.antt =====
-- Streams that the theorems are run on.
use block_chain.Common.{
  String, Bool, false, List, [], ◌∷◌, map, ◌≡◌, ◌≢◌, sym, ◌∙◌, true, refl, inl, arith,
}
use mathlib.Core.Bool.{false≢true}
use text.Mathlib.Text.{◌==◌ as str_eq}
use text.Mathlib.TextEquality.{eq_iff}
use block_chain.AuditApi.Contract.{Conforms, IsWellFormed}
use block_chain.AuditApi.Checks.{hex_digits_iff}
use block_chain.Js.{
  Value, null, boolean, object, Fields, end, field, number, string, array, nil, cons, integer, pos,
  Number, Result, ok, thrown, get,
}
use block_chain.Js.Example.{example_engine}
use block_chain.Fetch.{Reply, answered, refused}
use block_chain.AuditApi.{AuditEvent, hex_digits}
use block_chain.AuditStream.{
  Stream, Event, refreshed, searched, replied, initial_event, stream_after,
}
use block_chain.AuditStream.Table.{table, filtered_events, filter_items, is_shown, mentions}
use block_chain.AuditStream.Typed.{matches, typed_row, table-matches}
use block_chain.AuditStream.Feed.{FeedEvent, asks, fails, searches, brings, carried, Brings}
use block_chain.AuditStream.Session.{initial_event-Shows, table-stream_after}

abbrev lower_example : String → String
lower_example s = s

abbrev react_child_example : Value → Result String
react_child_example (string s) = ok s
react_child_example (number n) = ok (example_engine.show_number n)
react_child_example _ =
    thrown (record { name = "Error"; message = "Objects are not valid as a React child" })

abbrev event : Value
event =
    initial_event "evt" "0x71a2c98401fed342" "ALGO_TX_DID_REGISTER" 0 7 "IDENTITY_REGISTERED"
      "12:44"

abbrev typed_event : AuditEvent
typed_event = carried "evt" 0 "0x71a2c98401fed342" 7 "ALGO_TX_DID_REGISTER" "IDENTITY_REGISTERED"

abbrev one_event : Stream
one_event = record {
  events = array (cons event nil);
  loading = false;
  filter_text = "DID";
  waiting = 0;
}

-- An event that is null stops the rendering.
abbrev null_event : Stream
null_event = record one_event { events = array (cons null nil) }

null_event-throws :
    table example_engine lower_example react_child_example null_event
    ≡ thrown (record { name = "TypeError"; message = "event_name" })
unfolding table filtered_events filter_items is_shown mentions get
null_event-throws = refl

shows_text_example : (s : String) → react_child_example (string s) ≡ ok s
shows_text_example s = refl

shows_number_example :
    (n : Number) → react_child_example (number n) ≡ ok (example_engine.show_number n)
shows_number_example n = refl

table-matches_example :
    table example_engine lower_example react_child_example one_event
    ≡ ok (
        map
          (typed_row example_engine lower_example react_child_example)
          (matches example_engine lower_example react_child_example "DID" (typed_event ∷ [])))
table-matches_example =
    table-matches example_engine lower_example react_child_example shows_text_example
      shows_number_example one_event (cons event nil) (typed_event ∷ []) refl
      (
        initial_event-Shows "evt" "0x71a2c98401fed342" "ALGO_TX_DID_REGISTER" 0 7
            "IDENTITY_REGISTERED" "12:44" refl,
        tt,
      )

abbrev numeric_example : String → Bool
numeric_example s = false

abbrev offline : Reply
offline = refused (record { name = "TypeError"; message = "Failed to fetch" })

abbrev failed : Reply
failed = answered (record { ok = false; status = integer (pos 503); json = ok null })

abbrev address_digits : String
address_digits = "1111111111111111111111111111111111111111"

abbrev hash_digits : String
hash_digits = "2222222222222222222222222222222222222222222222222222222222222222"

abbrev minted : AuditEvent
minted =
    carried "event-1" 1 "0x1111111111111111111111111111111111111111" 9
      "0x2222222222222222222222222222222222222222222222222222222222222222" "ASA_ASSET_MINTED"

abbrev minted_value : Value
minted_value =
    initial_event minted.event_id minted.contract_address minted.transaction_hash 1 9
      minted.event_name "12:44"

not_empty : (s : String) → str_eq s "" ≡ false → s ≢ ""
not_empty s h e = false≢true (sym h ∙ (eq_iff s "").1 e)

minted-IsWellFormed : IsWellFormed minted
unfolding hex_digits
minted-IsWellFormed = record {
  event_id = not_empty "event-1" refl;
  chain_id = omega arith;
  contract_address = (address_digits, refl, refl, ((hex_digits_iff 40 address_digits).0 refl).1);
  transaction_hash = (hash_digits, refl, refl, ((hex_digits_iff 64 hash_digits).0 refl).1);
  event_name = not_empty "ASA_ASSET_MINTED" refl;
}

minted-Conforms : Conforms minted_value minted
minted-Conforms = (
  _,
  refl,
  record {
    event_id = refl;
    chain_id = refl;
    contract_address = refl;
    transaction_hash = refl;
    log_index = refl;
    block_number = refl;
    event_name = refl;
    projection_status = refl;
  },
  minted-IsWellFormed,
)

abbrev minted_fields : Fields
minted_fields =
    field "projection_only" (boolean true) (field "events" (array (cons minted_value nil)) end)

abbrev served : Reply
served =
    answered (record { ok = true; status = integer (pos 200); json = ok (object minted_fields) })

served-Brings : Brings served (minted ∷ [])
served-Brings = (
  _,
  minted_fields,
  cons minted_value nil,
  refl,
  refl,
  refl,
  record { projection_only = refl; events = refl; conform = (minted-Conforms, tt) },
)

-- Offline, then refreshed; the second reply brings an event, and a third finds no success.
abbrev session : List Event
session =
    searched "ASA" ∷ replied failed ∷ refreshed ∷ replied served ∷ refreshed ∷ replied offline ∷ []

abbrev feed_session : List FeedEvent
feed_session = searches "ASA" ∷ fails ∷ asks ∷ brings (minted ∷ []) ∷ asks ∷ fails ∷ []

table-stream_after_example :
    table example_engine lower_example react_child_example
      (stream_after example_engine numeric_example session)
    ≡ ok (
        map
          (typed_row example_engine lower_example react_child_example)
          (matches example_engine lower_example react_child_example "ASA" (minted ∷ [])))
table-stream_after_example =
    table-stream_after example_engine numeric_example lower_example react_child_example
      shows_text_example shows_number_example session feed_session
      (refl, (inl refl, (tt, (served-Brings, (tt, (tt, tt))))))
