-- ===== src/DebugCollector/Bounded.antt =====
-- The buffers' sizes over any session.
use block_chain.Common.{ℕ, ◌-◌, ◌≤◌, String, List, [], ◌∷◌, ◌++◌, arith, length, length-drop}
use block_chain.Js.{Value}
use block_chain.DebugCollector.Store.{
  Browser, Moment, Store, console_size, network_size, ui_size, prune_buffer, push_console,
  push_network, push_ui, log_ui_event,
}
use block_chain.DebugCollector.Report.{Batch, put_back}
use block_chain.DebugCollector.Session.{Event, collector_after}
use block_chain.DebugCollector.Recordings.{IsKept}
use block_chain.DebugCollector.Kept.{collector_after_kept}

-- No buffer holds more than its size.
pub record IsBounded (s : Store) : Type 0 where
  pub console_logs : length s.console_logs ≤ console_size
  pub network_requests : length s.network_requests ≤ network_size
  pub ui_events : length s.ui_events ≤ ui_size

pub prune_buffer-le : (max : ℕ) (vs : List Value) → length (prune_buffer max vs) ≤ max
unfolding prune_buffer
prune_buffer-le max vs = ground (arith, length-drop (length vs - max) vs)

push_console-IsBounded : (v : Value) (s : Store) → IsBounded s → IsBounded (push_console v s)
unfolding push_console
push_console-IsBounded v s h = record {
  console_logs = prune_buffer-le console_size (s.console_logs ++ v ∷ []);
  network_requests = h.network_requests;
  ui_events = h.ui_events;
}

push_network-IsBounded : (v : Value) (s : Store) → IsBounded s → IsBounded (push_network v s)
unfolding push_network
push_network-IsBounded v s h = record {
  console_logs = h.console_logs;
  network_requests = prune_buffer-le network_size (s.network_requests ++ v ∷ []);
  ui_events = h.ui_events;
}

log_ui_event-IsBounded :
    (b : Browser) (kind : String) (payload : Value) (m : Moment) (s : Store)
    → IsBounded s
    → IsBounded (log_ui_event b kind payload m s)
unfolding log_ui_event push_ui
log_ui_event-IsBounded b kind payload m s h = record {
  console_logs = h.console_logs;
  network_requests = h.network_requests;
  ui_events = prune_buffer-le ui_size (s.ui_events ++ _ ∷ []);
}

put_back-IsBounded : (batch : Batch) (s : Store) → IsBounded (put_back batch s)
unfolding put_back
put_back-IsBounded batch s = record {
  console_logs = prune_buffer-le console_size (batch.console_logs ++ s.console_logs);
  network_requests = prune_buffer-le network_size (batch.network_requests ++ s.network_requests);
  ui_events = prune_buffer-le ui_size (batch.ui_events ++ s.ui_events);
}

IsBounded-IsKept : (b : Browser) → IsKept b IsBounded (λ batch. Unit {0})
IsBounded-IsKept b = record {
  on_start = record {
    console_logs = omega arith;
    network_requests = omega arith;
    ui_events = omega arith;
  };
  on_console = push_console-IsBounded;
  on_network = push_network-IsBounded;
  on_ui = log_ui_event-IsBounded b;
  on_time = λ n s h. record {
    console_logs = h.console_logs;
    network_requests = h.network_requests;
    ui_events = h.ui_events;
  };
  on_report = λ s h. (
    record { console_logs = omega arith; network_requests = omega arith; ui_events = omega arith },
    tt,
  );
  on_put_back = λ batch s q h. put_back-IsBounded batch s;
}

-- Over any session, whatever is recorded, answered, reported or put back, the buffers hold 500 entries of
-- the console, 200 of the network and 500 of the user's actions at most.
pub collector_after-IsBounded :
    (b : Browser) (es : List Event) → IsBounded (collector_after b es).store
collector_after-IsBounded b es = (collector_after_kept (IsBounded-IsKept b) es).0
