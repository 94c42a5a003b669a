-- ===== src/LogCollector/Tests.antt =====
-- Files and requests that the theorems are run on.
use Prim.Native.String.{len}
use block_chain.Common.{ℕ, ◌≤◌, ◌<◌, String, Bool, false, List, [], ◌∷◌, none, some, ◌≡◌, ◌⊎◌, refl}
use block_chain.Js.{Value, string, object, array, nil, cons, end, field, Error, Result, ok, get}
use block_chain.Js.Effects.{lift, pure, modify}
use block_chain.Js.Effects as Effects
use block_chain.Js.Example.{example_engine}
use block_chain.LogCollector.Trim.{
  trim_log_file, split_lines, join_lines, trim_target_bytes, kept_lines,
}
use block_chain.LogCollector.Write.{Logs}
use block_chain.LogCollector.Middleware.{LogRequest, collect_logs, success, has_entries}
use block_chain.LogCollector.Kept.{IsKept, trim_log_file-IsKept}
use block_chain.LogCollector.Bounds.{IsBounded, serve_all, serve_all-IsBounded}

two_newest : join_lines (kept_lines 7 (split_lines "one\ntwo\nsix\n")) ≡ "six\n"
unfolding split_lines join_lines kept_lines
two_newest = refl

trim_log_file-IsKept_example :
    ((len "one\ntwo\n" ≤ 4) × (trim_log_file 4 (some "one\ntwo\n") ≡ some "one\ntwo\n"))
    ⊎ ((4 < len "one\ntwo\n")
        × ((kept : List String) × (trim_log_file 4 (some "one\ntwo\n") ≡ some (join_lines kept))
            × IsKept trim_target_bytes (split_lines "one\ntwo\n") kept))
trim_log_file-IsKept_example = trim_log_file-IsKept 4 "one\ntwo\n"

abbrev numeric_example : String → Bool
numeric_example s = false

abbrev error_text_example : Error → String
error_text_example e = e.message

abbrev parse_example : String → Result Value
parse_example s = ok (object (field "consoleLogs" (array (cons (string s) nil)) end))

abbrev clock_example : ℕ → String
clock_example i = "2026-01-01T00:00:00.000Z"

abbrev stringify_example : Value → String
stringify_example v = "{}"

abbrev no_logs : Logs
no_logs = record { console_log = none; network_log = none; session_log = none }

abbrev post : LogRequest
post = record { method = "POST"; parsed_body = none; text = "x" }

written :
    collect_logs example_engine numeric_example error_text_example parse_example clock_example
      stringify_example post no_logs
    ≡ (success, record no_logs { console_log = some "[2026-01-01T00:00:00.000Z] {}\n" })
unfolding collect_logs get Effects.◌>>=◌ lift pure modify has_entries
written = refl

no_logs-IsBounded : IsBounded no_logs
no_logs-IsBounded = record { console_log = tt; network_log = tt; session_log = tt }

serve_all-IsBounded_example : IsBounded (
    serve_all example_engine numeric_example error_text_example parse_example clock_example
      stringify_example
      (post ∷ post ∷ [])
      no_logs)
serve_all-IsBounded_example =
    serve_all-IsBounded example_engine numeric_example error_text_example parse_example
      clock_example stringify_example (post ∷ post ∷ []) no_logs no_logs-IsBounded
