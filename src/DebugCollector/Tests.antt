-- ===== src/DebugCollector/Tests.antt =====
-- Sessions of a page that the theorems are run on.
use text.Mathlib.Text.{◌==◌ as str_eq}
use block_chain.Common.{
  ℕ, String, Bool, true, false, List, [], ◌∷◌, none, ◌≡◌, refl, if◌then◌else◌, All, length,
}
use block_chain.Js.{Error, Value, null, string, object, end, field, Result, ok}
use block_chain.Js.Example.{example_engine}
use block_chain.LogCollector.Write.{Logs}
use block_chain.LogCollector.Middleware.{collect_logs, success}
use block_chain.OpenBanking.Handlers.{bank_request}
use block_chain.Js.{contains}
use block_chain.DebugCollector.Sanitize.{
  sanitize_value, sanitize_fields, is_sensitive, cut_text, try_parse_json,
}
use block_chain.DebugCollector.Elements.{Element, no_element, element, is_sensitive_field, shorten}
use block_chain.DebugCollector.Store.{Browser, Moment}
use block_chain.DebugCollector.Console.{change, key_down, error, record_action, plain}
use block_chain.Js.{leading_number}
use block_chain.DebugCollector.Network.{recorded_body}
use block_chain.DebugCollector.Report.{Batch, payload_of}
use block_chain.DebugCollector.Session.{
  Event, empty_store, collector_after, report_due, report_failed, fetch_called, fetch_failed,
  navigated, console_called, acted,
}
use block_chain.DebugCollector.Bounded.{IsBounded, collector_after-IsBounded}
use block_chain.DebugCollector.Redacted.{AreRedacted, collector_after-AreRedacted}
use block_chain.DebugCollector.Restored.{report_failed-report_due}
use block_chain.DebugCollector.Delivered.{AreLogged, collect_logs-payload_of}
use block_chain.DebugCollector.Recorded.{
  EndsWithAuthorization, credential, call_of, fetch_failed-bank_request,
}
use block_chain.DebugCollector.Masked.{typed, record_action-typed, record_action-key_down}

abbrev lower_example : String → String
lower_example s =
    if str_eq s "Authorization" then "authorization" else if str_eq s "INPUT" then "input" else s

abbrev browser : Browser
browser = record {
  engine = example_engine;
  lower = lower_example;
  upper = λ s. s;
  parse = λ s. ok (string s);
  stringify = λ v. "{}";
}

abbrev moment : Moment
moment = record { now = 1000; href = "/"; inner_width = 800; inner_height = 600 }

abbrev password_input : Element
password_input = record {
  tag_name = "INPUT";
  id = "pin";
  attributes = ("type", "password") ∷ [];
  text = "";
  value = "";
  unrecorded = false;
}

-- The newest first.
abbrev session : List Event
session =
    acted change (element (typed password_input "1234")) moment
    ∷ navigated "pushState" moment
    ∷ console_called error (plain (string "no") ∷ []) (string "at main") 900
    ∷ []

hides_a_password :
    sanitize_value
      (λ s. s)
      0
      (object (field "password" (string "1234") (field "name" (string "Ann") end)))
    ≡ object (field "password" (string "[REDACTED]") (field "name" (string "Ann") end))
unfolding sanitize_value sanitize_fields is_sensitive contains cut_text
hides_a_password = refl

-- A form's body, which is no JSON, is recorded as it is.
records_a_form : recorded_body browser (string "password=1234") ≡ string "password=1234"
unfolding recorded_body sanitize_value try_parse_json cut_text
records_a_form = refl

shortens : shorten 5 "one two" ≡ "one t…"
unfolding shorten
shortens = refl

reads_a_length : leading_number 0 "10240 bytes" ≡ 10240
unfolding leading_number
reads_a_length = refl

collector_after-IsBounded_example : IsBounded (collector_after browser session).store
collector_after-IsBounded_example = collector_after-IsBounded browser session

collector_after-AreRedacted_example :
    AreRedacted browser (collector_after browser session).store.ui_events
    × All (λ batch. AreRedacted browser batch.ui_events) (collector_after browser session).reports
collector_after-AreRedacted_example = collector_after-AreRedacted browser session

report_failed-report_due_example :
    collector_after browser
      (report_failed (length (collector_after browser session).reports) ∷ report_due ∷ session)
    ≡ collector_after browser session
report_failed-report_due_example = report_failed-report_due browser session

abbrev numeric_example : String → Bool
numeric_example s = false

abbrev error_text_example : Error → String
error_text_example e = e.message

abbrev batch : Batch
batch = record { console_logs = string "no" ∷ []; network_requests = []; ui_events = null ∷ [] }

abbrev parse_example : String → Result Value
parse_example s = ok (payload_of 1000 batch)

abbrev clock_example : ℕ → String
clock_example i = "2026-01-01T00:00:00.000Z"

abbrev no_logs : Logs
no_logs = record { console_log = none; network_log = none; session_log = none }

collect_logs-payload_of_example :
    let result =
      collect_logs example_engine numeric_example error_text_example parse_example clock_example
        browser.stringify
        (record { method = "POST"; parsed_body = none; text = "{}" })
        no_logs in
    (result.0 ≡ success)
    × AreLogged example_engine numeric_example error_text_example parse_example clock_example
        browser.stringify batch no_logs result.1
collect_logs-payload_of_example =
    collect_logs-payload_of example_engine numeric_example error_text_example parse_example
      clock_example browser.stringify browser 1000 batch no_logs refl

fetch_failed-bank_request_example :
    EndsWithAuthorization
      (credential "secret")
      (collector_after browser (
        fetch_failed
          (length (collector_after browser session).fetches)
          (string "offline")
          null
          moment
        ∷ fetch_called (call_of browser (bank_request "ACCOUNTS" "secret")) 950
        ∷ session)).store.network_requests
fetch_failed-bank_request_example =
    fetch_failed-bank_request browser session "ACCOUNTS" "secret" 950 (string "offline") null moment
      refl

password_input-is_sensitive_field : is_sensitive_field lower_example password_input ≡ true
unfolding is_sensitive_field
password_input-is_sensitive_field = refl

record_action-typed_example :
    record_action browser change (element (typed password_input "1234")) moment empty_store
    ≡ record_action browser change (element (typed password_input "0000")) moment empty_store
record_action-typed_example =
    record_action-typed browser change password_input "1234" "0000" moment empty_store
      password_input-is_sensitive_field refl

record_action-key_down_example :
    record_action browser (key_down "Enter") no_element moment empty_store
    ≡ record_action browser (key_down "Escape") no_element moment empty_store
record_action-key_down_example = record_action-key_down browser no_element moment empty_store refl
