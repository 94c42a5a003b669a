-- ===== src/DebugCollector/Console.antt =====
-- The console's methods, uncaught errors, and the user's actions.
use text.Mathlib.Text.{◌==◌ as str_eq}
use block_chain.Common.{ℕ, ◌-◌, String, Bool, true, ◌||◌, List, [], ◌∷◌, if◌then◌else◌, ltb}
use block_chain.Js.{
  Value, undefined, null, boolean, number, string, array, object, Items, nil, cons, end, field,
  truthy,
}
use block_chain.DebugCollector.Sanitize.{sanitize_value}
use block_chain.DebugCollector.Elements.{
  Target, should_ignore_target, describe_element, get_input_value_safe,
}
use block_chain.DebugCollector.Store.{Browser, Moment, Store, natural, push_console, log_ui_event}

-- An argument of a console method: an `Error`, or another value.
pub data Arg : Type 0 where
  error_object : (message stack : Value) → Arg
  plain : Value → Arg

pub data Method : Type 0 where
  log debug info warn error : Method

abbrev pub level_of : Method → String
level_of log = "LOG"
level_of debug = "DEBUG"
level_of info = "INFO"
level_of warn = "WARN"
level_of error = "ERROR"

unfoldable pub format_plain : Browser → Value → Value
unfolding sanitize_value
format_plain b undefined = string "undefined"
format_plain b null = sanitize_value b.lower 0 null
format_plain b (boolean c) = string (if c then "true" else "false")
format_plain b (number n) = string (b.engine.show_number n)
format_plain b (string s) = string s
format_plain b (array vs) = sanitize_value b.lower 0 (array vs)
format_plain b (object fs) = sanitize_value b.lower 0 (object fs)

unfoldable pub format_arg : Browser → Arg → Value
unfolding format_plain
format_arg b (error_object message stack) =
    object (field "type" (string "Error") (field "message" message (field "stack" stack end)))
format_arg b (plain v) = format_plain b v

unfoldable pub format_args : Browser → List Arg → Items
unfolding format_arg
format_args b [] = nil
format_args b (arg ∷ args) = cons (format_arg b arg) (format_args b args)

abbrev pub stack_of : Method → Value → Value
stack_of error stack = stack
stack_of _ stack = null

abbrev pub log_entry : ℕ → String → Items → Value → Value
log_entry now level args stack = object (
    field "timestamp" (natural now)
      (field "level" (string level) (field "args" (array args) (field "stack" stack end))))

-- `console[method](…args)`; `stack` is that of a new `Error`.
unfoldable pub call_console : Browser → Method → List Arg → Value → ℕ → Store → Store
unfolding format_args
call_console b method args stack now =
    push_console (log_entry now (level_of method) (format_args b args) (stack_of method stack))

-- The event `error` of the window; `stack` is null where the event carries no error.
pub record Uncaught : Type 0 where
  pub message : Value
  pub filename : Value
  pub lineno : Value
  pub colno : Value
  pub stack : Value

unfoldable pub record_uncaught : Browser → Uncaught → Moment → Store → Store
record_uncaught b u m s =
    let arg = object (
      field "type" (string "UncaughtError") (
        field "message" u.message (
          field "filename" u.filename
            (field "lineno" u.lineno (field "colno" u.colno (field "stack" u.stack end)))))) in
    log_ui_event b "error"
      (object (
        field "message" u.message
          (field "filename" u.filename (field "lineno" u.lineno (field "colno" u.colno end)))))
      m (push_console (log_entry m.now "ERROR" (cons arg nil) u.stack) s)

-- A rejection's reason: its `message` and `stack`, undefined where it has none, and `String(reason)`.
pub record Reason : Type 0 where
  pub message : Value
  pub stack : Value
  pub text : String

abbrev pub reason_message : Reason → Value
reason_message r = if truthy r.message then r.message else string r.text

abbrev pub reason_stack : Reason → Value
reason_stack r = if truthy r.stack then r.stack else null

unfoldable pub record_rejection : Browser → Reason → Moment → Store → Store
record_rejection b r m s =
    let arg = object (
      field "type" (string "UnhandledRejection")
        (field "reason" (reason_message r) (field "stack" (reason_stack r) end))) in
    log_ui_event b "unhandledrejection" (object (field "reason" (reason_message r) end)) m
      (push_console (log_entry m.now "ERROR" (cons arg nil) (reason_stack r)) s)

-- An action with its target.
pub data Action : Type 0 where
  click : (x y : Value) → Action
  change focus_in focus_out submit : Action
  key_down : (key : String) → Action

abbrev pub kind_of : Action → String
kind_of (click x y) = "click"
kind_of change = "change"
kind_of focus_in = "focusin"
kind_of focus_out = "focusout"
kind_of submit = "submit"
kind_of (key_down key) = "keydown"

unfoldable pub action_payload : Browser → Action → Target → Value
unfolding describe_element get_input_value_safe
action_payload b (click x y) t =
    object (field "target" (describe_element b.lower t) (field "x" x (field "y" y end)))
action_payload b change t = object (
    field "target" (describe_element b.lower t)
      (field "value" (get_input_value_safe b.lower t) end))
action_payload b focus_in t = object (field "target" (describe_element b.lower t) end)
action_payload b focus_out t = object (
    field "target" (describe_element b.lower t)
      (field "value" (get_input_value_safe b.lower t) end))
action_payload b submit t = object (field "target" (describe_element b.lower t) end)
action_payload b (key_down key) t =
    object (field "key" (string key) (field "target" (describe_element b.lower t) end))

-- `e.key !== "Enter" && e.key !== "Escape"` returns.
abbrev pub is_recorded_action : Action → Bool
is_recorded_action (key_down key) = str_eq key "Enter" || str_eq key "Escape"
is_recorded_action (click x y) = true
is_recorded_action change = true
is_recorded_action focus_in = true
is_recorded_action focus_out = true
is_recorded_action submit = true

unfoldable pub record_action : Browser → Action → Target → Moment → Store → Store
unfolding action_payload should_ignore_target
record_action b a t m s =
    if is_recorded_action a
    then (if should_ignore_target t
        then s
        else log_ui_event b (kind_of a) (action_payload b a t) m s)
    else s

abbrev pub scroll_throttle_ms : ℕ
scroll_throttle_ms = 500

-- The scroll position, and the document's height.
pub record Scroll : Type 0 where
  pub scroll_x : Value
  pub scroll_y : Value
  pub document_height : Value

-- A clock that has gone back counts as no time.
unfoldable pub record_scroll : Browser → Scroll → Moment → Store → Store
record_scroll b p m s =
    if ltb (m.now - s.last_scroll_time) scroll_throttle_ms
    then s
    else log_ui_event b "scroll"
        (object (
          field "scrollX" p.scroll_x (
            field "scrollY" p.scroll_y (
              field "documentHeight" p.document_height
                (field "viewportHeight" (natural m.inner_height) end)))))
        m (record s { last_scroll_time = m.now })

-- After `history.pushState` and `replaceState`, and on `popstate` and `hashchange`.
unfoldable pub record_navigation : Browser → String → Moment → Store → Store
record_navigation b reason = log_ui_event b "navigate" (object (field "reason" (string reason) end))
