-- ===== src/DebugCollector/Delivered.antt =====
-- A report, from the browser's script to the log files of the development server.
use Prim.Native.String as Text
use Prim.Native.String.{len}
use mathlib.Core.Path.{subst}
use text.Mathlib.TextLemmas.{append-nil, append_assoc}
use block_chain.Common.{
  ℕ, suc, ◌≤◌, ◌<◌, String, Bool, List, [], ◌∷◌, Option, none, some, ◌≡◌, ◌⊎◌, refl, sym, ap, ◌∙◌,
}
use block_chain.LogCollector.Trim.{max_log_size_bytes, split_lines, join_lines}
use block_chain.LogCollector.Kept.{IsKept, trim_log_file-IsKept}
use block_chain.Js.{Engine, Error, Value, array, items, Result, ok, get}
use block_chain.Js.Effects.{lift, modify, pure}
use block_chain.Js.Effects as Effects
use block_chain.LogCollector.Write.{
  Logs, LogSource, browser_console, network_requests, session_replay, log_of, set_log, append_file,
  format_entry, format_entries, write_to_log_file,
}
use block_chain.LogCollector.Middleware.{
  has_entries, write_entries, write_if, write_part, handle_payload, collect_logs, success,
}
use block_chain.DebugCollector.Store.{Browser}
use block_chain.DebugCollector.Report.{Batch, items_of, payload_of}

items-items_of : (vs : List Value) → items (items_of vs) ≡ vs
items-items_of [] = refl
items-items_of (v ∷ vs) = ap (v ∷◌) (items-items_of vs)

module _ (js : Engine) (numeric : String → Bool) (error_text : Error → String)
    (parse : String → Result Value) (clock : ℕ → String) (stringify : Value → String) where
  write_part-items_of :
      (source : LogSource) (key : String) (payload : Value) (vs : List Value) (l : Logs)
      → get js payload key ≡ ok (array (items_of vs))
      → write_part js numeric error_text parse clock stringify source key payload l
        ≡ (ok tt, write_to_log_file clock stringify source vs l)
  unfolding write_part Effects.◌>>=◌ lift has_entries write_if write_entries modify pure get
      write_to_log_file
  write_part-items_of source key payload [] l e = rw e refl
  write_part-items_of source key payload (v ∷ vs) l e = rw (e, items-items_of vs) refl

  -- The log files with the entries of a batch, each kind in its own.
  abbrev logs_with : Batch → Logs → Logs
  logs_with batch l = write_to_log_file clock stringify session_replay batch.ui_events (
      write_to_log_file clock stringify network_requests batch.network_requests
        (write_to_log_file clock stringify browser_console batch.console_logs l))

  get-payload_of :
      (now : ℕ) (batch : Batch)
      → (get js (payload_of now batch) "consoleLogs" ≡ ok (array (items_of batch.console_logs)))
        × (get js (payload_of now batch) "networkRequests"
            ≡ ok (array (items_of batch.network_requests)))
        × (get js (payload_of now batch) "sessionEvents" ≡ ok (array (items_of batch.ui_events)))
  unfolding get payload_of
  get-payload_of now batch = (refl, refl, refl)

  handle_payload-payload_of :
      (now : ℕ) (batch : Batch) (l : Logs)
      → handle_payload js numeric error_text parse clock stringify (payload_of now batch) l
        ≡ (ok tt, logs_with batch l)
  unfolding handle_payload Effects.◌>>=◌
  handle_payload-payload_of now batch l =
      rw
        (
          write_part-items_of browser_console "consoleLogs" (payload_of now batch)
              batch.console_logs l (get-payload_of now batch).0,
          write_part-items_of network_requests "networkRequests" (payload_of now batch)
              batch.network_requests _ (get-payload_of now batch).1,
          write_part-items_of session_replay "sessionEvents" (payload_of now batch) batch.ui_events
              _ (get-payload_of now batch).2,
        )
        refl

  collect_logs-logs_with :
      (b : Browser) (now : ℕ) (batch : Batch) (l : Logs)
      → parse (b.stringify (payload_of now batch)) ≡ ok (payload_of now batch)
      → collect_logs js numeric error_text parse clock stringify
          (record {
            method = "POST";
            parsed_body = none;
            text = b.stringify (payload_of now batch);
          })
          l
        ≡ (success, logs_with batch l)
  unfolding collect_logs
  collect_logs-logs_with b now batch l e = rw (e, handle_payload-payload_of now batch l) refl

  -- The text of some entries, the first of which is formatted at the i-th time: a line for each, in order.
  abbrev pub written : ℕ → List Value → String
  written i [] = ""
  written i (v ∷ vs) =
      Text.◌++◌ (Text.◌++◌ "[" (Text.◌++◌ (clock i) (Text.◌++◌ "] " (stringify v))))
        (Text.◌++◌ "\n" (written (suc i) vs))

  abbrev pub appended : Option String → String → String
  appended none new = new
  appended (some old) new = Text.◌++◌ old new

  -- The file holds the text if that takes up to 1048576 bytes, and otherwise its last whole lines, as many
  -- as fit 629145 bytes.
  abbrev pub HoldsTrimmed : String → Option String → Type 0
  HoldsTrimmed text after =
      ((len text ≤ 1048576) × (after ≡ some text))
      ⊎ ((1048576 < len text)
          × ((kept : List String) × (after ≡ some (join_lines kept))
              × IsKept 629145 (split_lines text) kept))

  -- A log file before and after the entries: without entries it is as it was.
  abbrev pub IsLogged : List Value → Option String → Option String → Type 0
  IsLogged [] before after = after ≡ before
  IsLogged (v ∷ vs) before after = HoldsTrimmed (appended before (written 0 (v ∷ vs))) after

  join_lines-written :
      (i : ℕ) (v : Value) (vs : List Value)
      → Text.◌++◌ (join_lines (format_entries clock stringify i (v ∷ vs))) "\n" ≡ written i (v ∷ vs)
  unfolding join_lines format_entries format_entry
  join_lines-written i v [] = ap (Text.◌++◌ _) (sym (append-nil "\n"))
  join_lines-written i v (w ∷ vs) =
      append_assoc _ _ "\n"
      ∙ ap (Text.◌++◌ _)
          (append_assoc "\n" _ "\n" ∙ ap (Text.◌++◌ "\n") (join_lines-written (suc i) w vs))

  append_file-appended :
      (text : String) (o : Option String) → append_file text o ≡ some (appended o text)
  unfolding append_file
  append_file-appended text none = refl
  append_file-appended text (some old) = refl

  log_of-set_log :
      (source : LogSource) (t : Option String) (l : Logs) → log_of source (set_log source t l) ≡ t
  log_of-set_log browser_console t l = refl
  log_of-set_log network_requests t l = refl
  log_of-set_log session_replay t l = refl

  write_to_log_file-IsLogged :
      (source : LogSource) (vs : List Value) (l : Logs)
      → IsLogged vs
          (log_of source l)
          (log_of source (write_to_log_file clock stringify source vs l))
  unfolding write_to_log_file
  write_to_log_file-IsLogged source [] l = refl
  write_to_log_file-IsLogged source (v ∷ vs) l =
      rw
        (
          log_of-set_log source _ l,
          join_lines-written 0 v vs,
          append_file-appended (written 0 (v ∷ vs)) (log_of source l),
        )
        (trim_log_file-IsKept max_log_size_bytes (appended (log_of source l) (written 0 (v ∷ vs))))

  write_session-others :
      (vs : List Value) (l : Logs)
      → let after = write_to_log_file clock stringify session_replay vs l in
        (after.console_log ≡ l.console_log) × (after.network_log ≡ l.network_log)
  unfolding write_to_log_file
  write_session-others [] l = (refl, refl)
  write_session-others (v ∷ vs) l = (refl, refl)

  write_network-others :
      (vs : List Value) (l : Logs)
      → let after = write_to_log_file clock stringify network_requests vs l in
        (after.console_log ≡ l.console_log) × (after.session_log ≡ l.session_log)
  unfolding write_to_log_file
  write_network-others [] l = (refl, refl)
  write_network-others (v ∷ vs) l = (refl, refl)

  write_console-others :
      (vs : List Value) (l : Logs)
      → let after = write_to_log_file clock stringify browser_console vs l in
        (after.network_log ≡ l.network_log) × (after.session_log ≡ l.session_log)
  unfolding write_to_log_file
  write_console-others [] l = (refl, refl)
  write_console-others (v ∷ vs) l = (refl, refl)

  abbrev pub AreLogged : Batch → Logs → Logs → Type 0
  AreLogged batch before after =
      IsLogged batch.console_logs before.console_log after.console_log
      × IsLogged batch.network_requests before.network_log after.network_log
      × IsLogged batch.ui_events before.session_log after.session_log

  logs_with-AreLogged : (batch : Batch) (l : Logs) → AreLogged batch l (logs_with batch l)
  logs_with-AreLogged batch l =
      let l₁ = write_to_log_file clock stringify browser_console batch.console_logs l in
      let l₂ = write_to_log_file clock stringify network_requests batch.network_requests l₁ in
      let (console₂, session₂) = write_network-others batch.network_requests l₁ in
      let (console₃, network₃) = write_session-others batch.ui_events l₂ in
      let (network₁, session₁) = write_console-others batch.console_logs l in
      (
        subst (IsLogged batch.console_logs l.console_log) (sym (console₃ ∙ console₂))
            (write_to_log_file-IsLogged browser_console batch.console_logs l),
        subst (IsLogged batch.network_requests l.network_log) (sym network₃) (
            subst (λ t. IsLogged batch.network_requests t l₂.network_log) network₁
              (write_to_log_file-IsLogged network_requests batch.network_requests l₁)),
        subst (λ t. IsLogged batch.ui_events t (logs_with batch l).session_log)
            (session₂ ∙ session₁) (write_to_log_file-IsLogged session_replay batch.ui_events l₂),
      )

  -- A report that reaches the development server, whose text `JSON.parse` reads back as the payload, is
  -- answered with status 200; a log file whose buffer is empty is as it was, and each other one has its
  -- buffer's entries at the end, in order, each on a line "[time] entry", as `JSON.stringify` writes it
  -- at the time it is formatted, unless the file then takes more than 1048576 bytes: what it holds then are
  -- its last whole lines, as many as fit 629145 bytes with their line ends (none, if the last does not fit).
  pub collect_logs-payload_of :
      (b : Browser) (now : ℕ) (batch : Batch) (l : Logs)
      → parse (b.stringify (payload_of now batch)) ≡ ok (payload_of now batch)
      → let result =
          collect_logs js numeric error_text parse clock stringify
            (record {
              method = "POST";
              parsed_body = none;
              text = b.stringify (payload_of now batch);
            })
            l in
        (result.0 ≡ success) × AreLogged batch l result.1
  collect_logs-payload_of b now batch l e =
      rw (collect_logs-logs_with b now batch l e) (refl, logs_with-AreLogged batch l)
