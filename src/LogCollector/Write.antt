-- ===== src/LogCollector/Write.antt =====
-- `writeToLogFile`: the three log files, of which none need exist. Disk operations succeed.
use Prim.Native.String as Text
use block_chain.Common.{ℕ, suc, String, List, [], ◌∷◌, Option, none, some}
use block_chain.Js.{Value}
use block_chain.LogCollector.Trim.{trim_log_file, max_log_size_bytes, join_lines}

pub data LogSource : Type 0 where
  browser_console network_requests session_replay : LogSource

pub record Logs : Type 0 where
  pub console_log : Option String
  pub network_log : Option String
  pub session_log : Option String

abbrev pub log_of : LogSource → Logs → Option String
log_of browser_console l = l.console_log
log_of network_requests l = l.network_log
log_of session_replay l = l.session_log

abbrev pub set_log : LogSource → Option String → Logs → Logs
set_log browser_console t l = record l { console_log = t }
set_log network_requests t l = record l { network_log = t }
set_log session_replay t l = record l { session_log = t }

-- `fs.appendFileSync`, which makes the file if there is none.
unfoldable pub append_file : String → Option String → Option String
append_file text none = some text
append_file text (some old) = some (Text.◌++◌ old text)

-- `clock` gives the time at which each entry is formatted, `stringify` is `JSON.stringify`.
module _ (clock : ℕ → String) (stringify : Value → String) where
  unfoldable pub format_entry : ℕ → Value → String
  format_entry i entry = Text.◌++◌ "[" (Text.◌++◌ (clock i) (Text.◌++◌ "] " (stringify entry)))

  unfoldable pub format_entries : ℕ → List Value → List String
  unfolding format_entry
  format_entries i [] = []
  format_entries i (entry ∷ entries) = format_entry i entry ∷ format_entries (suc i) entries

  unfoldable pub write_to_log_file : LogSource → List Value → Logs → Logs
  unfolding append_file format_entries trim_log_file
  write_to_log_file source [] l = l
  write_to_log_file source (entry ∷ entries) l =
      let text = Text.◌++◌ (join_lines (format_entries 0 (entry ∷ entries))) "\n" in
      set_log source (trim_log_file max_log_size_bytes (append_file text (log_of source l))) l
