-- ===== src/DebugCollector/Masked.antt =====
-- `recordAction` on a sensitive field's text and on a pressed key.
use Prim.Native.String as Text
use block_chain.Common.{String, true, ◌≡◌, refl}
use block_chain.Js.{contains}
use block_chain.DebugCollector.Sanitize.{is_sensitive, sanitize_value, sanitize_fields}
use block_chain.DebugCollector.Elements.{
  Element, Target, element, is_sensitive_field, has_value, get_input_value_safe, describe_element,
  selector_hint, should_ignore_target,
}
use block_chain.DebugCollector.Store.{Browser, Moment, Store, log_ui_event, ui_entry}
use block_chain.DebugCollector.Console.{
  Action, click, change, focus_in, focus_out, submit, key_down, action_payload, record_action,
}

abbrev pub typed : Element → String → Element
typed el v = record el { value = v }

get_input_value_safe-typed :
    (lower : String → String) (el : Element) (v w : String)
    → is_sensitive_field lower el ≡ true
    → Text.count v ≡ Text.count w
    → get_input_value_safe lower (element (typed el v))
      ≡ get_input_value_safe lower (element (typed el w))
unfolding get_input_value_safe is_sensitive_field has_value
get_input_value_safe-typed lower el v w h e = rw (h, e) refl

describe_element-typed :
    (lower : String → String) (el : Element) (v w : String)
    → describe_element lower (element (typed el v)) ≡ describe_element lower (element (typed el w))
unfolding describe_element selector_hint
describe_element-typed lower el v w = refl

action_payload-typed :
    (b : Browser) (a : Action) (el : Element) (v w : String)
    → is_sensitive_field b.lower el ≡ true
    → Text.count v ≡ Text.count w
    → action_payload b a (element (typed el v)) ≡ action_payload b a (element (typed el w))
unfolding action_payload
action_payload-typed b (click x y) el v w h e = rw (describe_element-typed b.lower el v w) refl
action_payload-typed b change el v w h e =
    rw (describe_element-typed b.lower el v w, get_input_value_safe-typed b.lower el v w h e) refl
action_payload-typed b focus_in el v w h e = rw (describe_element-typed b.lower el v w) refl
action_payload-typed b focus_out el v w h e =
    rw (describe_element-typed b.lower el v w, get_input_value_safe-typed b.lower el v w h e) refl
action_payload-typed b submit el v w h e = rw (describe_element-typed b.lower el v w) refl
action_payload-typed b (key_down key) el v w h e = rw (describe_element-typed b.lower el v w) refl

-- For a field that the script takes for a sensitive one, what any action on it leaves in the store is the
-- same for any two texts of the same length that the user may have typed into it.
pub record_action-typed :
    (b : Browser) (a : Action) (el : Element) (v w : String) (m : Moment) (s : Store)
    → is_sensitive_field b.lower el ≡ true
    → Text.count v ≡ Text.count w
    → record_action b a (element (typed el v)) m s ≡ record_action b a (element (typed el w)) m s
unfolding record_action should_ignore_target
record_action-typed b a el v w m s h e = rw (action_payload-typed b a el v w h e) refl

ui_entry-key_down :
    (b : Browser) (t : Target) (m : Moment) (key key' : String)
    → b.lower "key" ≡ "key"
    → ui_entry b "keydown" (action_payload b (key_down key) t) m
      ≡ ui_entry b "keydown" (action_payload b (key_down key') t) m
unfolding ui_entry sanitize_value sanitize_fields is_sensitive action_payload contains
ui_entry-key_down b t m key key' e = rw e refl

-- What is recorded of the Enter key is what is recorded of the Escape key, on any target: the key's name is
-- redacted, since the field that holds it is named "key"; provided that `toLowerCase` keeps "key".
pub record_action-key_down :
    (b : Browser) (t : Target) (m : Moment) (s : Store)
    → b.lower "key" ≡ "key"
    → record_action b (key_down "Enter") t m s ≡ record_action b (key_down "Escape") t m s
unfolding record_action log_ui_event
record_action-key_down b t m s e = rw (ui_entry-key_down b t m "Enter" "Escape" e) refl
