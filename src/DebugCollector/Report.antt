-- ===== src/DebugCollector/Report.antt =====
-- What is sent to the log collector, and what is put back.
use Prim.Native.String as Text
use block_chain.Common.{
  ℕ, ◌-◌, String, Bool, true, false, ◌&&◌, List, [], ◌∷◌, ◌++◌, Option, none, some, if◌then◌else◌,
  ltb, length, drop,
}
use block_chain.Js.{Value, boolean, array, object, Items, nil, cons, end, field}
use block_chain.DebugCollector.Store.{
  Browser, Store, natural, prune_buffer, console_size, network_size, ui_size,
}

-- The entries of one report.
pub record Batch : Type 0 where
  pub console_logs : List Value
  pub network_requests : List Value
  pub ui_events : List Value

abbrev pub items_of : List Value → Items
items_of [] = nil
items_of (v ∷ vs) = cons v (items_of vs)

abbrev pub is_empty : List Value → Bool
is_empty [] = true
is_empty (v ∷ vs) = false

abbrev pub is_blank : Batch → Bool
is_blank b = is_empty b.console_logs && (is_empty b.network_requests && is_empty b.ui_events)

abbrev pub batch_of : Store → Batch
batch_of s = record {
  console_logs = s.console_logs;
  network_requests = s.network_requests;
  ui_events = s.ui_events;
}

-- `splice(0)` of each buffer.
abbrev pub emptied : Store → Store
emptied s = record s { console_logs = []; network_requests = []; ui_events = [] }

unfoldable pub payload_of : ℕ → Batch → Value
payload_of now b = object (
    field "timestamp" (natural now) (
      field "consoleLogs" (array (items_of b.console_logs)) (
        field "networkRequests" (array (items_of b.network_requests)) (
          field "sessionEvents" (array (items_of b.ui_events))
            (field "uiEvents" (array (items_of b.ui_events)) end)))))

-- `reportLogs`: the batch that is sent, if there is anything to send, and the store that is left.
unfoldable pub report_logs : Store → Option Batch × Store
report_logs s = if is_blank (batch_of s) then (none, emptied s) else (some (batch_of s), emptied s)

-- The report has failed: its entries are put back before those that came since.
unfoldable pub put_back : Batch → Store → Store
unfolding prune_buffer
put_back b s = record s {
  console_logs = prune_buffer console_size (b.console_logs ++ s.console_logs);
  network_requests = prune_buffer network_size (b.network_requests ++ s.network_requests);
  ui_events = prune_buffer ui_size (b.ui_events ++ s.ui_events);
}

-- `slice(-n)`, with n above 0.
abbrev pub last : ℕ → List Value → List Value
last n vs = drop (length vs - n) vs

abbrev pub max_beacon_size : ℕ
max_beacon_size = 60000

unfoldable pub truncated_payload : ℕ → Batch → Value
truncated_payload now b = object (
    field "timestamp" (natural now) (
      field "consoleLogs" (array (items_of (last 50 b.console_logs))) (
        field "networkRequests" (array (items_of (last 20 b.network_requests))) (
          field "sessionEvents" (array (items_of (last 100 b.ui_events))) (
            field "uiEvents" (array (items_of (last 100 b.ui_events)))
              (field "_truncated" (boolean true) end))))))

-- The text of the beacon on `beforeunload`, where the browser has beacons.
unfoldable pub beacon_text : Browser → ℕ → Store → Option String
unfolding payload_of truncated_payload
beacon_text b now s =
    let text = b.stringify (payload_of now (batch_of s)) in
    if is_blank (batch_of s)
    then none
    else if ltb max_beacon_size (Text.count text)
    then some (b.stringify (truncated_payload now (batch_of s)))
    else some text
