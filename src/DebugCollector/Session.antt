-- ===== src/DebugCollector/Session.antt =====
-- The script over a session of the page: its store, and what waits for an answer.
use block_chain.Common.{
  ℕ, ◌-◌, String, ◌||◌, List, [], ◌∷◌, ◌++◌, Option, none, some, if◌then◌else◌, get_elem?,
  erase_idx,
}
use text.Mathlib.Text.{◌==◌ as str_eq}
use block_chain.Js.{Value, Result}
use block_chain.DebugCollector.Elements.{Target}
use block_chain.DebugCollector.Store.{Browser, Moment, Store}
use block_chain.DebugCollector.Console.{
  Method, Arg, call_console, Uncaught, record_uncaught, Reason, record_rejection, Action,
  record_action, Scroll, record_scroll, record_navigation,
}
use block_chain.DebugCollector.Network.{
  FetchCall, url_of, is_internal, Pending, fetch_entry, Received, unread_body, Reading,
  receive_fetch, receive_body, fail_fetch,
}
use block_chain.DebugCollector.Xhr.{XhrCall, xhr_entry, load_xhr, fail_xhr}
use block_chain.DebugCollector.Report.{Batch, report_logs, put_back}

-- Under way: the requests of `fetch`, the bodies that are read, the requests of `XMLHttpRequest`, and
-- the reports.
pub record Collector : Type 0 where
  pub store : Store
  pub fetches : List Pending
  pub readings : List Reading
  pub xhrs : List Pending
  pub reports : List Batch

abbrev pub empty_store : Store
empty_store = record {
  console_logs = [];
  network_requests = [];
  ui_events = [];
  last_scroll_time = 0;
}

abbrev pub initial_collector : Collector
initial_collector = record {
  store = empty_store;
  fetches = [];
  readings = [];
  xhrs = [];
  reports = [];
}

-- A position tells which of those that are under way is answered.
pub data Event : Type 0 where
  console_called : Method → List Arg → (stack : Value) → (now : ℕ) → Event
  uncaught : Uncaught → Moment → Event
  rejected : Reason → Moment → Event
  acted : Action → Target → Moment → Event
  scrolled : Scroll → Moment → Event
  navigated : (reason : String) → Moment → Event
  fetch_called : FetchCall → (now : ℕ) → Event
  fetch_answered : ℕ → Received → Moment → Event
  fetch_failed : ℕ → (message stack : Value) → Moment → Event
  body_read : ℕ → Result String → Event
  xhr_sent : XhrCall → (now : ℕ) → Event
  xhr_loaded : ℕ → Received → (response_text : Result String) → Moment → Event
  xhr_failed : ℕ → Moment → Event
  report_due : Event
  report_answered report_failed : ℕ → Event

abbrev pub on_store : (Store → Store) → Collector → Collector
on_store f c = record c { store = f c.store }

abbrev pub wait_for_body : Option String → Reading → Collector → Collector
wait_for_body none w c = record c { readings = c.readings ++ w ∷ [] }
wait_for_body (some note) w c = c

abbrev pub wait_for_report : Option Batch × Store → Collector → Collector
wait_for_report (none, s) c = record c { store = s }
wait_for_report (some batch, s) c = record c { store = s; reports = c.reports ++ batch ∷ [] }

module _ (b : Browser) where
  unfoldable pub answer_fetch : ℕ → Option Pending → Received → Moment → Collector → Collector
  unfolding receive_fetch unread_body
  answer_fetch i none r m c = c
  answer_fetch i (some p) r m c =
      wait_for_body (unread_body b r)
        (record { pending = p; received = r; duration = m.now - p.start_time })
        (record c { store = receive_fetch b p r m c.store; fetches = erase_idx c.fetches i })

  unfoldable pub drop_fetch : ℕ → Option Pending → Value → Value → Moment → Collector → Collector
  unfolding fail_fetch
  drop_fetch i none message stack m c = c
  drop_fetch i (some p) message stack m c = record c {
    store = fail_fetch b p message stack m c.store;
    fetches = erase_idx c.fetches i;
  }

  unfoldable pub finish_reading : ℕ → Option Reading → Result String → Collector → Collector
  unfolding receive_body
  finish_reading i none body c = c
  finish_reading i (some w) body c = record c {
    store = receive_body b w body c.store;
    readings = erase_idx c.readings i;
  }

  unfoldable pub finish_xhr : ℕ → Option Pending → (Pending → Store → Store) → Collector → Collector
  finish_xhr i none record_it c = c
  finish_xhr i (some p) record_it c = record c {
    store = record_it p c.store;
    xhrs = erase_idx c.xhrs i;
  }

  unfoldable pub fail_report : ℕ → Option Batch → Collector → Collector
  unfolding put_back
  fail_report i none c = c
  fail_report i (some batch) c = record c {
    store = put_back batch c.store;
    reports = erase_idx c.reports i;
  }

  unfoldable pub step : Event → Collector → Collector
  unfolding call_console record_uncaught record_rejection record_action record_scroll
      record_navigation fetch_entry xhr_entry answer_fetch drop_fetch finish_reading finish_xhr
      load_xhr fail_xhr report_logs fail_report
  step (console_called method args stack now) c = on_store (call_console b method args stack now) c
  step (uncaught u m) c = on_store (record_uncaught b u m) c
  step (rejected r m) c = on_store (record_rejection b r m) c
  step (acted a t m) c = on_store (record_action b a t m) c
  step (scrolled p m) c = on_store (record_scroll b p m) c
  step (navigated reason m) c = on_store (record_navigation b reason m) c
  step (fetch_called call now) c =
      if is_internal (url_of call.input)
      then c
      else record c { fetches = c.fetches ++ fetch_entry b call now ∷ [] }
  step (fetch_answered i r m) c = answer_fetch i (get_elem? c.fetches i) r m c
  step (fetch_failed i message stack m) c = drop_fetch i (get_elem? c.fetches i) message stack m c
  step (body_read i body) c = finish_reading i (get_elem? c.readings i) body c
  step (xhr_sent call now) c =
      if str_eq call.url "" || is_internal call.url
      then c
      else record c { xhrs = c.xhrs ++ xhr_entry b call now ∷ [] }
  step (xhr_loaded i r response_text m) c =
      finish_xhr i (get_elem? c.xhrs i) (λ p. load_xhr b p r response_text m) c
  step (xhr_failed i m) c = finish_xhr i (get_elem? c.xhrs i) (λ p. fail_xhr b p m) c
  step report_due c = wait_for_report (report_logs c.store) c
  step (report_answered i) c = record c { reports = erase_idx c.reports i }
  step (report_failed i) c = fail_report i (get_elem? c.reports i) c

  -- The script after a history of events, the newest first.
  unfoldable pub collector_after : List Event → Collector
  unfolding step
  collector_after [] = initial_collector
  collector_after (e ∷ es) = step e (collector_after es)
