-- ===== src/DebugCollector/Recordings.antt =====
-- Properties of the store, along the recordings.
use block_chain.Common.{ℕ, ◌-◌, String, List, Option, none, some, ltb, leb, choose}
use block_chain.Js.{Value, Result}
use block_chain.DebugCollector.Elements.{Target, should_ignore_target}
use block_chain.DebugCollector.Store.{
  Browser, Moment, Store, push_console, push_network, log_ui_event,
}
use block_chain.DebugCollector.Console.{
  Method, Arg, call_console, Uncaught, record_uncaught, Reason, record_rejection, Action,
  is_recorded_action, record_action, Scroll, record_scroll, record_navigation, scroll_throttle_ms,
}
use block_chain.DebugCollector.Network.{
  Pending, Received, unread_body, Reading, push_unread, log_status, log_failure, receive_fetch,
  receive_body, fail_fetch,
}
use block_chain.DebugCollector.Xhr.{load_xhr, fail_xhr}
use block_chain.DebugCollector.Report.{Batch, batch_of, emptied, put_back}
use block_chain.DebugCollector.Session.{empty_store}

-- What is asked of the property: that it holds at first and is kept by what the script does to the store;
-- and of the batches, that a report's batch has one of its own and gives it back.
pub record IsKept (b : Browser) (P : Store → Type 0) (Q : Batch → Type 0) : Type 0 where
  pub on_start : P empty_store
  pub on_console : (v : Value) (s : Store) → P s → P (push_console v s)
  pub on_network : (v : Value) (s : Store) → P s → P (push_network v s)
  pub on_ui :
      (kind : String) (payload : Value) (m : Moment) (s : Store)
      → P s
      → P (log_ui_event b kind payload m s)
  pub on_time : (n : ℕ) (s : Store) → P s → P (record s { last_scroll_time = n })
  pub on_report : (s : Store) → P s → P (emptied s) × Q (batch_of s)
  pub on_put_back : (batch : Batch) (s : Store) → Q batch → P s → P (put_back batch s)

module _ {b : Browser} {P : Store → Type 0} {Q : Batch → Type 0} (kept : IsKept b P Q) where
  open kept use {on_start, on_console, on_network, on_ui, on_time, on_report, on_put_back}

  pub record_uncaught_kept :
      (u : Uncaught) (m : Moment) (s : Store) → P s → P (record_uncaught b u m s)
  unfolding record_uncaught
  record_uncaught_kept u m s h = on_ui _ _ m _ (on_console _ s h)

  pub record_rejection_kept :
      (r : Reason) (m : Moment) (s : Store) → P s → P (record_rejection b r m s)
  unfolding record_rejection
  record_rejection_kept r m s h = on_ui _ _ m _ (on_console _ s h)

  pub record_action_kept :
      (a : Action) (t : Target) (m : Moment) (s : Store) → P s → P (record_action b a t m s)
  unfolding record_action
  record_action_kept a t m s h =
      choose P (is_recorded_action a) _ s
        (choose P (should_ignore_target t) s _ h (on_ui _ _ m s h)) h

  pub record_scroll_kept : (p : Scroll) (m : Moment) (s : Store) → P s → P (record_scroll b p m s)
  unfolding record_scroll
  record_scroll_kept p m s h =
      choose P (ltb (m.now - s.last_scroll_time) scroll_throttle_ms) s _ h
        (on_ui _ _ m _ (on_time m.now s h))

  pub log_status_kept :
      (kind : String) (p : Pending) (r : Received) (m : Moment) (s : Store)
      → P s
      → P (log_status b kind p r m s)
  unfolding log_status
  log_status_kept kind p r m s h = choose P (leb 400 r.status) _ s (on_ui _ _ m s h) h

  pub push_unread_kept :
      (note : Option String) (p : Pending) (r : Received) (duration : ℕ) (s : Store)
      → P s
      → P (push_unread note p r duration s)
  push_unread_kept none p r duration s h = h
  push_unread_kept (some body) p r duration s h = on_network _ s h

  pub receive_fetch_kept :
      (p : Pending) (r : Received) (m : Moment) (s : Store) → P s → P (receive_fetch b p r m s)
  unfolding receive_fetch
  receive_fetch_kept p r m s h =
      push_unread_kept (unread_body b r) p r (m.now - p.start_time) _
        (log_status_kept "fetch" p r m s h)

  pub receive_body_kept :
      (w : Reading) (body : Result String) (s : Store) → P s → P (receive_body b w body s)
  unfolding receive_body
  receive_body_kept w body s h = on_network _ s h

  pub log_failure_kept :
      (kind : String) (p : Pending) (message : Value) (m : Moment) (s : Store)
      → P s
      → P (log_failure b kind p message m s)
  unfolding log_failure
  log_failure_kept kind p message m s h = on_ui _ _ m s h

  pub fail_fetch_kept :
      (p : Pending) (message stack : Value) (m : Moment) (s : Store)
      → P s
      → P (fail_fetch b p message stack m s)
  unfolding fail_fetch
  fail_fetch_kept p message stack m s h = log_failure_kept "fetch" p message m _ (on_network _ s h)

  pub load_xhr_kept :
      (p : Pending) (r : Received) (response_text : Result String) (m : Moment) (s : Store)
      → P s
      → P (load_xhr b p r response_text m s)
  unfolding load_xhr
  load_xhr_kept p r response_text m s h = log_status_kept "xhr" p r m _ (on_network _ s h)

  pub fail_xhr_kept : (p : Pending) (m : Moment) (s : Store) → P s → P (fail_xhr b p m s)
  unfolding fail_xhr
  fail_xhr_kept p m s h = log_failure_kept "xhr" p _ m _ (on_network _ s h)

  pub call_console_kept :
      (method : Method) (args : List Arg) (stack : Value) (now : ℕ) (s : Store)
      → P s
      → P (call_console b method args stack now s)
  unfolding call_console
  call_console_kept method args stack now s h = on_console _ s h

  pub record_navigation_kept :
      (reason : String) (m : Moment) (s : Store) → P s → P (record_navigation b reason m s)
  unfolding record_navigation
  record_navigation_kept reason m s h = on_ui _ _ m s h
