-- ===== src/LogCollector/Bounds.antt =====
-- The size of the log files, over any requests.
use Prim.Native.String as Text
use Prim.Native.String.{len}
use text.Mathlib.Text.{◌==◌ as str_eq}
use block_chain.Common.{
  ℕ, ◌≤◌, String, Bool, true, false, List, [], ◌∷◌, Option, none, some, inl, inr, arith, Bool-cases,
}
use block_chain.Js.{Engine, Error, Value, array, Result, ok, thrown}
use block_chain.Js.Effects.Keeps.{
  Preserves, Preserves-IsPreorder, Keeps, Keeps-bind, Keeps-lift, Keeps-pure, Keeps-modify,
  Keeps-lift-bind,
}
use block_chain.LogCollector.Trim.{max_log_size_bytes, trim_log_file, join_lines}
use block_chain.LogCollector.Write.{
  Logs, LogSource, browser_console, network_requests, session_replay, write_to_log_file, set_log,
  log_of, append_file, format_entries,
}
use block_chain.LogCollector.Middleware.{
  LogRequest, write_entries, write_if, write_part, handle_payload, answer_text, answer_body,
  collect_logs, is_object,
}
use block_chain.LogCollector.Kept.{len-join_lines, trim_log_file-IsKept}

-- A file that is not there, or one within the limit.
abbrev pub IsSmall : Option String → Type 0
IsSmall none = Unit
IsSmall (some text) = len text ≤ max_log_size_bytes

pub record IsBounded (l : Logs) : Type 0 where
  pub console_log : IsSmall l.console_log
  pub network_log : IsSmall l.network_log
  pub session_log : IsSmall l.session_log

trim_log_file-IsSmall : (o : Option String) → IsSmall (trim_log_file max_log_size_bytes o)
unfolding trim_log_file
trim_log_file-IsSmall none = tt
trim_log_file-IsSmall (some text) = elim (trim_log_file-IsKept max_log_size_bytes text) [
  | inl (small, same) ↦ rw same small
  | inr (large, (kept, same, (dropped, split, fit, most))) ↦
      rw same (omega (arith, len-join_lines kept))
]

set_log-IsBounded :
    (source : LogSource) (o : Option String) (l : Logs)
    → IsSmall o
    → IsBounded l
    → IsBounded (set_log source o l)
set_log-IsBounded browser_console o l small b = record {
  console_log = small;
  network_log = b.network_log;
  session_log = b.session_log;
}
set_log-IsBounded network_requests o l small b = record {
  console_log = b.console_log;
  network_log = small;
  session_log = b.session_log;
}
set_log-IsBounded session_replay o l small b = record {
  console_log = b.console_log;
  network_log = b.network_log;
  session_log = small;
}

module _ (clock : ℕ → String) (stringify : Value → String) where
  write_to_log_file-IsBounded :
      (source : LogSource) (entries : List Value)
      → (l : Logs) → IsBounded l
      → IsBounded (write_to_log_file clock stringify source entries l)
  unfolding write_to_log_file
  write_to_log_file-IsBounded source [] l b = b
  write_to_log_file-IsBounded source (entry ∷ entries) l b =
      let text = Text.◌++◌ (join_lines (format_entries clock stringify 0 (entry ∷ entries))) "\n" in
      set_log-IsBounded source _ l (trim_log_file-IsSmall (append_file text (log_of source l))) b

abbrev Bounds : Logs → Logs → Type 0
Bounds = Preserves IsBounded

module _ (js : Engine) (numeric : String → Bool) (error_text : Error → String)
    (parse : String → Result Value) (clock : ℕ → String) (stringify : Value → String) where
  write_entries-Bounds :
      (source : LogSource) (v : Value)
      → Keeps Bounds (write_entries js numeric error_text parse clock stringify source v)
  unfolding write_entries
  write_entries-Bounds source (array vs) =
      Keeps-modify (Preserves-IsPreorder IsBounded)
        (write_to_log_file-IsBounded clock stringify source _)
  write_entries-Bounds source _ = Keeps-lift (Preserves-IsPreorder IsBounded) _

  write_if-Bounds :
      (b : Bool) (source : LogSource) (v : Value)
      → Keeps Bounds (write_if js numeric error_text parse clock stringify b source v)
  unfolding write_if
  write_if-Bounds true source v = write_entries-Bounds source v
  write_if-Bounds false source v = Keeps-pure (Preserves-IsPreorder IsBounded) _

  write_part-Bounds :
      (source : LogSource) (key : String) (v : Value)
      → Keeps Bounds (write_part js numeric error_text parse clock stringify source key v)
  unfolding write_part
  write_part-Bounds source key v = Keeps-lift-bind (Preserves-IsPreorder IsBounded) _ (λ entries.
      Keeps-lift-bind (Preserves-IsPreorder IsBounded) _ (λ b. write_if-Bounds b source entries))

  handle_payload-Bounds :
      (v : Value) → Keeps Bounds (handle_payload js numeric error_text parse clock stringify v)
  unfolding handle_payload
  handle_payload-Bounds v =
      Keeps-bind (Preserves-IsPreorder IsBounded) (write_part-Bounds _ _ v) (λ _.
        Keeps-bind (Preserves-IsPreorder IsBounded) (write_part-Bounds _ _ v)
          (λ _. write_part-Bounds _ _ v))

  answer_text-Bounds :
      (r : Result Value) (l : Logs)
      → Bounds l (answer_text js numeric error_text parse clock stringify r l).1
  unfolding answer_text
  answer_text-Bounds (ok v) l = (handle_payload-Bounds v).at l
  answer_text-Bounds (thrown e) l = λ b. b

  answer_body-Bounds :
      (o : Option Value) (text : String) (l : Logs)
      → Bounds l (answer_body js numeric error_text parse clock stringify o text l).1
  unfolding answer_body
  answer_body-Bounds none text l = answer_text-Bounds (parse text) l
  answer_body-Bounds (some v) text l =
      elim (Bool-cases (is_object js numeric error_text parse clock stringify v)) [
        | inl yes_object ↦ rw yes_object ((handle_payload-Bounds v).at l)
        | inr no_object ↦ rw no_object (answer_text-Bounds (parse text) l)
      ]

  collect_logs-Bounds :
      (req : LogRequest) (l : Logs)
      → Bounds l (collect_logs js numeric error_text parse clock stringify req l).1
  unfolding collect_logs
  collect_logs-Bounds req l = elim (Bool-cases (str_eq req.method "POST")) [
    | inl post ↦ rw post (answer_body-Bounds req.parsed_body req.text l)
    | inr other ↦ rw other (λ b. b)
  ]

  -- The logs after some requests, the oldest first.
  abbrev pub serve_all : List LogRequest → Logs → Logs
  serve_all [] l = l
  serve_all (req ∷ reqs) l =
      serve_all reqs (collect_logs js numeric error_text parse clock stringify req l).1

  -- Whatever requests come, no log file grows over the limit: it holds after each if it held before.
  pub serve_all-IsBounded :
      (reqs : List LogRequest) (l : Logs) → IsBounded l → IsBounded (serve_all reqs l)
  serve_all-IsBounded [] l b = b
  serve_all-IsBounded (req ∷ reqs) l b = serve_all-IsBounded reqs _ (collect_logs-Bounds req l b)
