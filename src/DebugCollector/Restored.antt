-- ===== src/DebugCollector/Restored.antt =====
-- `reportLogs` and its `catch`, one directly after the other.
use block_chain.Common.{
  ℕ, ◌≤◌, true, List, [], ◌∷◌, ◌++◌, ◌≡◌, refl, inl, inr, arith, length, get_elem?-append,
  get_elem?-past, erase_idx-append, Bool-cases,
}
use mathlib.Core.List.{append-nil}
use block_chain.Js.{Value}
use block_chain.DebugCollector.Store.{Browser, Store, prune_buffer}
use block_chain.DebugCollector.Report.{is_blank, batch_of, emptied, report_logs, put_back}
use block_chain.DebugCollector.Session.{
  Collector, Event, report_due, report_failed, fail_report, step, collector_after,
}
use block_chain.DebugCollector.Bounded.{IsBounded, collector_after-IsBounded}

prune_buffer-small :
    (max : ℕ) (vs : List Value) → length vs ≤ max → prune_buffer max (vs ++ []) ≡ vs
unfolding prune_buffer
prune_buffer-small max vs h = rw (append-nil vs) (ground arith)

put_back-emptied : (s : Store) → IsBounded s → put_back (batch_of s) (emptied s) ≡ s
unfolding put_back
put_back-emptied s h =
    rw
      (
        prune_buffer-small _ s.console_logs h.console_logs,
        prune_buffer-small _ s.network_requests h.network_requests,
        prune_buffer-small _ s.ui_events h.ui_events,
      )
      refl

emptied_blank :
    (console network ui : List Value) (t : ℕ)
    → is_blank (record { console_logs = console; network_requests = network; ui_events = ui })
      ≡ true
    → emptied (record {
      console_logs = console;
      network_requests = network;
      ui_events = ui;
      last_scroll_time = t;
    })
      ≡ record {
        console_logs = console;
        network_requests = network;
        ui_events = ui;
        last_scroll_time = t;
      }
emptied_blank [] [] [] t e = refl
emptied_blank [] [] (x ∷ xs) t e = cc
emptied_blank [] (x ∷ xs) ui t e = cc
emptied_blank (x ∷ xs) network ui t e = cc

fail_report_due :
    (b : Browser) (c : Collector)
    → IsBounded c.store
    → step b (report_failed (length c.reports)) (step b report_due c) ≡ c
unfolding step report_logs fail_report
fail_report_due b c h = elim (Bool-cases (is_blank (batch_of c.store))) [
  | inl none_new ↦
      rw
        (
          none_new,
          get_elem?-past c.reports,
          emptied_blank c.store.console_logs c.store.network_requests c.store.ui_events
              c.store.last_scroll_time none_new,
        )
        refl
  | inr some_new ↦
      rw
        (
          some_new,
          get_elem?-append c.reports (batch_of c.store) [],
          erase_idx-append c.reports (batch_of c.store) [],
          append-nil c.reports,
          put_back-emptied c.store h,
        )
        refl
]

-- After any session, a report that is due and whose request then fails, with nothing in between, leaves the
-- script as it was: every entry of the three buffers stands again at its place, and nothing more is under way.
pub report_failed-report_due :
    (b : Browser) (es : List Event)
    → collector_after b (report_failed (length (collector_after b es).reports) ∷ report_due ∷ es)
      ≡ collector_after b es
unfolding collector_after
report_failed-report_due b es =
    fail_report_due b (collector_after b es) (collector_after-IsBounded b es)
