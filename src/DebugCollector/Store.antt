-- ===== src/DebugCollector/Store.antt =====
-- The buffers of what is recorded, and `logUiEvent`.
use block_chain.Common.{ℕ, ◌-◌, String, List, [], ◌∷◌, ◌++◌, if◌then◌else◌, ltb, length, drop}
use block_chain.Js.{Engine, Value, string, number, integer, pos, object, end, field, Result}
use block_chain.DebugCollector.Sanitize.{sanitize_value}

-- What the script uses of the browser and of the language.
pub record Browser : Type 0 where
  pub engine : Engine
  pub lower : String → String
  pub upper : String → String
  pub parse : String → Result Value
  pub stringify : Value → String

-- The time, the page's address and the size of its window, when an event is recorded.
-- The clock does not go back while a request is under way.
pub record Moment : Type 0 where
  pub now : ℕ
  pub href : String
  pub inner_width : ℕ
  pub inner_height : ℕ

-- The oldest entry stands first.
pub record Store : Type 0 where
  pub console_logs : List Value
  pub network_requests : List Value
  pub ui_events : List Value
  pub last_scroll_time : ℕ

abbrev pub console_size : ℕ
console_size = 500

abbrev pub network_size : ℕ
network_size = 200

abbrev pub ui_size : ℕ
ui_size = 500

abbrev pub natural : ℕ → Value
natural n = number (integer (pos n))

unfoldable pub prune_buffer : ℕ → List Value → List Value
prune_buffer max_size buffer =
    if ltb max_size (length buffer) then drop (length buffer - max_size) buffer else buffer

-- `push`, and then the pruning.
unfoldable pub push_console : Value → Store → Store
unfolding prune_buffer
push_console entry s = record s {
  console_logs = prune_buffer console_size (s.console_logs ++ entry ∷ []);
}

unfoldable pub push_network : Value → Store → Store
unfolding prune_buffer
push_network entry s = record s {
  network_requests = prune_buffer network_size (s.network_requests ++ entry ∷ []);
}

unfoldable pub push_ui : Value → Store → Store
unfolding prune_buffer
push_ui entry s = record s { ui_events = prune_buffer ui_size (s.ui_events ++ entry ∷ []) }

unfoldable pub ui_entry : Browser → String → Value → Moment → Value
unfolding sanitize_value
ui_entry b kind payload m = object (
    field "timestamp" (natural m.now) (
      field "kind" (string kind) (
        field "url" (string m.href) (
          field "viewport"
            (object
              (field "width" (natural m.inner_width) (field "height" (natural m.inner_height) end)))
            (field "payload" (sanitize_value b.lower 0 payload) end)))))

unfoldable pub log_ui_event : Browser → String → Value → Moment → Store → Store
unfolding ui_entry push_ui
log_ui_event b kind payload m = push_ui (ui_entry b kind payload m)
