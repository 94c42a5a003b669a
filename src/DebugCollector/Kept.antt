-- ===== src/DebugCollector/Kept.antt =====
-- Properties of the store and of the reports under way, along the steps of a session.
use text.Mathlib.Text.{◌==◌ as str_eq}
use block_chain.Common.{
  ℕ, String, ◌||◌, List, [], ◌∷◌, ◌++◌, Option, none, some, get_elem?, All, All-append,
  All-get_elem?, All-erase_idx, Option-cases, Bool-cases, choose, inl, inr,
}
use block_chain.Js.{Value, Result}
use block_chain.DebugCollector.Store.{Browser, Moment, Store}
use block_chain.DebugCollector.Network.{
  fetch_entry, url_of, is_internal, Pending, Received, unread_body, Reading,
}
use block_chain.DebugCollector.Xhr.{xhr_entry, load_xhr, fail_xhr}
use block_chain.DebugCollector.Report.{Batch, is_blank, batch_of, report_logs}
use block_chain.DebugCollector.Session.{
  Collector, Event, console_called, uncaught, rejected, acted, scrolled, navigated, fetch_called,
  fetch_answered, fetch_failed, body_read, xhr_sent, xhr_loaded, xhr_failed, report_due,
  report_answered, report_failed, wait_for_body, wait_for_report, answer_fetch, drop_fetch,
  finish_reading, finish_xhr, fail_report, step, collector_after,
}
use block_chain.DebugCollector.Recordings.{
  IsKept, record_uncaught_kept, record_rejection_kept, record_action_kept, record_scroll_kept,
  receive_fetch_kept, receive_body_kept, fail_fetch_kept, load_xhr_kept, fail_xhr_kept,
  call_console_kept, record_navigation_kept,
}

module _ {b : Browser} {P : Store → Type 0} {Q : Batch → Type 0} (kept : IsKept b P Q) where
  open kept use {on_start, on_console, on_network, on_ui, on_time, on_report, on_put_back}

  -- The property of the store, with that of the batches that are under way.
  abbrev pub Holds : Collector → Type 0
  Holds c = P c.store × All Q c.reports

  wait_for_body_kept :
      (note : Option String) (w : Reading) (c : Collector)
      → Holds c
      → Holds (wait_for_body note w c)
  wait_for_body_kept none w c h = h
  wait_for_body_kept (some note) w c h = h

  answer_fetch_kept :
      (i : ℕ) (o : Option Pending) (r : Received) (m : Moment) (c : Collector)
      → Holds c
      → Holds (answer_fetch b i o r m c)
  unfolding answer_fetch
  answer_fetch_kept i none r m c h = h
  answer_fetch_kept i (some p) r m c (h, q) =
      wait_for_body_kept (unread_body b r) _ _ (receive_fetch_kept kept p r m c.store h, q)

  drop_fetch_kept :
      (i : ℕ) (o : Option Pending) (message stack : Value) (m : Moment) (c : Collector)
      → Holds c
      → Holds (drop_fetch b i o message stack m c)
  unfolding drop_fetch
  drop_fetch_kept i none message stack m c h = h
  drop_fetch_kept i (some p) message stack m c (h, q) =
      (fail_fetch_kept kept p message stack m c.store h, q)

  finish_reading_kept :
      (i : ℕ) (o : Option Reading) (body : Result String) (c : Collector)
      → Holds c
      → Holds (finish_reading b i o body c)
  unfolding finish_reading
  finish_reading_kept i none body c h = h
  finish_reading_kept i (some w) body c (h, q) = (receive_body_kept kept w body c.store h, q)

  finish_xhr_kept :
      (i : ℕ) (o : Option Pending) (record_it : Pending → Store → Store) (c : Collector)
      → ((p : Pending) (s : Store) → P s → P (record_it p s))
      → Holds c
      → Holds (finish_xhr b i o record_it c)
  unfolding finish_xhr
  finish_xhr_kept i none record_it c k h = h
  finish_xhr_kept i (some p) record_it c k (h, q) = (k p c.store h, q)

  report_kept : (c : Collector) → Holds c → Holds (wait_for_report (report_logs c.store) c)
  unfolding report_logs
  report_kept c (h, q) =
      let (left, sent) = on_report c.store h in
      elim (Bool-cases (is_blank (batch_of c.store))) [
        | inl none_new ↦ rw none_new (left, q)
        | inr some_new ↦
            rw some_new (left, All-append Q c.reports (batch_of c.store ∷ []) q (sent, tt))
      ]

  fail_report_kept :
      (i : ℕ) (c : Collector) → Holds c → Holds (fail_report b i (get_elem? c.reports i) c)
  unfolding fail_report
  fail_report_kept i c (h, q) = elim (Option-cases (get_elem? c.reports i)) [
    | inl e ↦ rw e (h, q)
    | inr (batch, e) ↦ rw e (
      on_put_back batch c.store (All-get_elem? Q c.reports i q e) h,
      All-erase_idx Q c.reports i q,
    )
  ]

  step_kept : (e : Event) (c : Collector) → Holds c → Holds (step b e c)
  unfolding step
  step_kept (console_called method args stack now) c (h, q) =
      (call_console_kept kept method args stack now c.store h, q)
  step_kept (uncaught u m) c (h, q) = (record_uncaught_kept kept u m c.store h, q)
  step_kept (rejected r m) c (h, q) = (record_rejection_kept kept r m c.store h, q)
  step_kept (acted a t m) c (h, q) = (record_action_kept kept a t m c.store h, q)
  step_kept (scrolled p m) c (h, q) = (record_scroll_kept kept p m c.store h, q)
  step_kept (navigated reason m) c (h, q) = (record_navigation_kept kept reason m c.store h, q)
  step_kept (fetch_called call now) c h =
      choose Holds (is_internal (url_of call.input)) c
        (record c { fetches = c.fetches ++ fetch_entry b call now ∷ [] }) h h
  step_kept (fetch_answered i r m) c h = answer_fetch_kept i (get_elem? c.fetches i) r m c h
  step_kept (fetch_failed i message stack m) c h =
      drop_fetch_kept i (get_elem? c.fetches i) message stack m c h
  step_kept (body_read i body) c h = finish_reading_kept i (get_elem? c.readings i) body c h
  step_kept (xhr_sent call now) c h =
      choose Holds (str_eq call.url "" || is_internal call.url) c
        (record c { xhrs = c.xhrs ++ xhr_entry b call now ∷ [] }) h h
  step_kept (xhr_loaded i r response_text m) c h =
      finish_xhr_kept i (get_elem? c.xhrs i) (λ p. load_xhr b p r response_text m) c
        (λ p s. load_xhr_kept kept p r response_text m s) h
  step_kept (xhr_failed i m) c h =
      finish_xhr_kept i (get_elem? c.xhrs i) (λ p. fail_xhr b p m) c
        (λ p s. fail_xhr_kept kept p m s) h
  step_kept report_due c h = report_kept c h
  step_kept (report_answered i) c (h, q) = (h, All-erase_idx Q c.reports i q)
  step_kept (report_failed i) c h = fail_report_kept i c h

  pub collector_after_kept : (es : List Event) → Holds (collector_after b es)
  unfolding collector_after
  collector_after_kept [] = (on_start, tt)
  collector_after_kept (e ∷ es) = step_kept e (collector_after b es) (collector_after_kept es)
