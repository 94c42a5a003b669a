-- ===== src/DebugCollector/Xhr.antt =====
-- The interception of `XMLHttpRequest`.
use Prim.Native.String as Text
use block_chain.Common.{ℕ, ◌-◌, String, if◌then◌else◌}
use block_chain.Js.{Value, null, string, object, end, field, Result, ok, thrown}
use block_chain.DebugCollector.Elements.{or_text}
use block_chain.DebugCollector.Store.{Browser, Moment, Store, natural, push_network}
use block_chain.DebugCollector.Network.{
  Pending, Received, content_type, entry_value, is_binary, is_streaming, log_failure, log_status,
  recorded_body, text_body,
}

-- `open` and `send` of a request object, each called once.
pub record XhrCall : Type 0 where
  pub method : String
  pub url : String
  pub body : Value

unfoldable pub xhr_entry : Browser → XhrCall → ℕ → Pending
unfolding recorded_body
xhr_entry b c now = record {
  start_time = now;
  type = "xhr";
  method = b.upper (or_text c.method "GET");
  url = c.url;
  request = object (field "body" (recorded_body b c.body) end);
}

-- `xhr.responseText || ""`, which may throw.
abbrev pub xhr_text : Browser → Result String → Value
xhr_text b (ok s) = text_body b s
xhr_text b (thrown e) = string (Text.◌++◌ "[Unable to read response: " (Text.◌++◌ e.message "]"))

unfoldable pub xhr_body : Browser → Received → Result String → Value
unfolding text_body
xhr_body b r response_text =
    if is_streaming (content_type b r)
    then string "[Streaming response - not captured]"
    else if is_binary (content_type b r)
    then string (Text.◌++◌ "[Binary content: " (Text.◌++◌ (content_type b r) "]"))
    else xhr_text b response_text

unfoldable pub load_xhr : Browser → Pending → Received → Result String → Moment → Store → Store
unfolding xhr_body entry_value
load_xhr b p r response_text m s = log_status b "xhr" p r m (
    push_network
      (entry_value p
        (object (
          field "status" (natural r.status) (
            field "statusText" (string r.status_text)
              (field "body" (xhr_body b r response_text) end))))
        (natural (m.now - p.start_time)) null)
      s)

unfoldable pub fail_xhr : Browser → Pending → Moment → Store → Store
unfolding entry_value
fail_xhr b p m s = log_failure b "xhr" p (string "Network error") m (
    push_network
      (entry_value p null (natural (m.now - p.start_time))
        (object (field "message" (string "Network error") end)))
      s)
