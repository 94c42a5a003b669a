-- ===== src/AuditStream.antt =====
-- apps/web/src/components/AuditStream.tsx: the stream's state, its requests and replies, the search, and the
-- texts of the table's rows.
pub mod Table
pub mod Typed
pub mod Feed
pub mod Session
mod Tests
use Prim.Native.String as Text
use block_chain.Common.{
  ℕ, zero, suc, ◌-◌, String, Bool, true, false, ◌||◌, List, [], ◌∷◌, if◌then◌else◌,
}
use block_chain.Js.{
  Engine, Value, Items, nil, cons, string, number, array, object, Fields, end, field, integer, pos,
  truthy, or_else, get, slice_to, slice_from_end, to_text, type_error, contains, above_zero, Result,
  ok, ◌>>=◌,
}
use block_chain.Js.Effects.{Run, pure, lift, modify, try_catch}
use block_chain.Js.Effects as Effects
use block_chain.Fetch.{Reply, Response, response}

-- `waiting` is how many requests wait for a reply.
pub record Stream : Type 0 where
  pub events : Value
  pub loading : Bool
  pub filter_text : String
  pub waiting : ℕ

abbrev pub initial_event : String → String → String → ℕ → ℕ → String → String → Value
initial_event id address hash log block name time = object (
    field "event_id" (string id) (
      field "chain_id" (number (integer (pos 416001))) (
        field "contract_address" (string address) (
          field "transaction_hash" (string hash) (
            field "log_index" (number (integer (pos log))) (
              field "block_number" (number (integer (pos block))) (
                field "event_name" (string name) (
                  field "projection_status" (string "canonical")
                    (field "timestamp" (string time) end)))))))))

-- What is shown until a reply brings events.
abbrev pub initial_events : Value
initial_events = array (
    cons
      (initial_event "evt_algo_1048576_001" "0x71a2c98401fed34208a1098b09c8213812739812"
        "ALGO_TX_DID_REGISTER_992183120485761029" 0 1048576 "IDENTITY_REGISTERED" "12:44:18 UTC")
      (cons
        (initial_event "evt_algo_1048576_002" "0x3841029848102834012938472910482019472019"
          "ALGO_TX_MINT_ASA_401928374619283746" 1 1048577 "ASA_ASSET_MINTED" "12:44:22 UTC")
        (cons
          (initial_event "evt_algo_1048576_003" "0x5910293847102938471029384710293847102938"
            "ALGO_TX_ACCESS_EVAL_840192837461928374" 2 1048578 "ACCESS_GRANTED" "12:44:26 UTC")
          nil)))

abbrev pub initial_stream : Stream
initial_stream = record { events = initial_events; loading = false; filter_text = ""; waiting = 0 }

-- `fetchAuditLogs` as far as its `await`: on the first render, and by the button, which is never disabled.
unfoldable pub fetch_audit_logs : Stream → Stream
fetch_audit_logs s = record s { loading = true; waiting = suc s.waiting }

abbrev pub set_events : Value → Stream → Stream
set_events v s = record s { events = v }

abbrev pub set_filter_text : String → Stream → Stream
set_filter_text t s = record s { filter_text = t }

pub data Event : Type 0 where
  refreshed : Event
  searched : String → Event
  replied : Reply → Event

-- `numeric` is whether a text reads as a number above 0.
module _ (js : Engine) (numeric : String → Bool) where
  abbrev pub set_if : Bool → Value → Run Stream (Unit {0})
  set_if true events = modify (set_events events)
  set_if false events = pure tt

  -- `if (data.events && data.events.length > 0) …`.
  unfoldable pub take_events : Value → Run Stream (Unit {0})
  take_events events =
      if truthy events
      then Effects.◌>>=◌ (lift (get js events "length"))
          (λ count. Effects.◌>>=◌ (lift (above_zero js numeric count)) (λ some. set_if some events))
      else pure tt

  unfoldable pub take_response : Response → Run Stream (Unit {0})
  unfolding take_events
  take_response res =
      if res.ok
      then Effects.◌>>=◌ (lift res.json)
          (λ payload. Effects.◌>>=◌ (lift (get js payload "events")) take_events)
      else pure tt

  -- `fetchAuditLogs` from its reply on: an error changes nothing.
  unfoldable pub reply_audit_logs : Reply → Stream → Stream
  unfolding take_response
  reply_audit_logs reply s =
      let t = try_catch (Effects.◌>>=◌ (lift (response reply)) take_response) (λ e t. t) s in
      record t { loading = false; waiting = s.waiting - 1 }

  abbrev pub reply_if : ℕ → Reply → Stream → Stream
  reply_if zero reply s = s
  reply_if (suc n) reply s = reply_audit_logs reply s

  unfoldable pub step : Event → Stream → Stream
  unfolding fetch_audit_logs reply_audit_logs
  step refreshed s = fetch_audit_logs s
  step (searched t) s = set_filter_text t s
  step (replied reply) s = reply_if s.waiting reply s

  -- The stream after it was shown and a history of events, the newest first.
  unfoldable pub stream_after : List Event → Stream
  unfolding step fetch_audit_logs
  stream_after [] = fetch_audit_logs initial_stream
  stream_after (e ∷ es) = step e (stream_after es)
