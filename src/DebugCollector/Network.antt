-- ===== src/DebugCollector/Network.antt =====
-- The interception of `fetch`, and what is recorded of a request and its response.
use Prim.Native.String as Text
use text.Mathlib.Text.{starts_with}
use block_chain.Common.{
  ℕ, ◌-◌, String, Bool, true, ◌||◌, List, [], ◌∷◌, Option, none, some, if◌then◌else◌, ltb, leb,
}
use block_chain.Js.{
  Value, null, boolean, string, object, Fields, end, field, truthy, Result, ok, thrown, take_text,
  contains, leading_number,
}
use block_chain.DebugCollector.Sanitize.{
  sanitize_value, try_parse_json, contains_some, max_body_length,
}
use block_chain.DebugCollector.Elements.{or_text, attribute_of}
use block_chain.DebugCollector.Store.{Browser, Moment, Store, natural, push_network, log_ui_event}

-- The first argument of `fetch`: a text, a `Request`, or a `URL`.
pub data FetchInput : Type 0 where
  address : String → FetchInput
  request : (url method : String) → FetchInput
  url_object : (href : String) → FetchInput

-- `headers` is what `new Headers(init.headers)` comes to, if there are any.
pub record FetchCall : Type 0 where
  pub input : FetchInput
  pub init_method : String
  pub headers : Option (Result (List (String × String)))
  pub body : Value

abbrev pub url_of : FetchInput → String
url_of (address s) = s
url_of (request url method) = url
url_of (url_object href) = href

abbrev pub method_of : FetchInput → String
method_of (address s) = ""
method_of (request url method) = method
method_of (url_object href) = ""

-- `url.indexOf("/__manus__/") === 0`.
abbrev pub is_internal : String → Bool
is_internal url = starts_with url "/__manus__/"

-- `Object.fromEntries`, of names that are distinct.
abbrev pub header_fields : List (String × String) → Fields
header_fields [] = end
header_fields ((k, v) ∷ rest) = field k (string v) (header_fields rest)

abbrev pub request_headers : Option (Result (List (String × String))) → Value
request_headers none = object end
request_headers (some (ok hs)) = object (header_fields hs)
request_headers (some (thrown e)) = object (field "_parseError" (boolean true) end)

-- A request that waits, with the fields of its entry that are known.
pub record Pending : Type 0 where
  pub start_time : ℕ
  pub type : String
  pub method : String
  pub url : String
  pub request : Value

-- `body ? sanitizeValue(tryParseJson(body)) : null`.
unfoldable pub recorded_body : Browser → Value → Value
unfolding sanitize_value try_parse_json
recorded_body b body =
    if truthy body then sanitize_value b.lower 0 (try_parse_json b.parse body) else null

unfoldable pub fetch_entry : Browser → FetchCall → ℕ → Pending
unfolding recorded_body
fetch_entry b c now = record {
  start_time = now;
  type = "fetch";
  method = b.upper (or_text c.init_method (or_text (method_of c.input) "GET"));
  url = url_of c.input;
  request =
      object
        (field "headers" (request_headers c.headers) (field "body" (recorded_body b c.body) end));
}

unfoldable pub entry_value : Pending → Value → Value → Value → Value
entry_value p response duration error = object (
    field "timestamp" (natural p.start_time) (
      field "type" (string p.type) (
        field "method" (string p.method) (
          field "url" (string p.url) (
            field "request" p.request
              (field "response" response (field "duration" duration (field "error" error end))))))))

-- A response. The headers' names are in lower case, which the look-up of one does not depend on.
pub record Received : Type 0 where
  pub status : ℕ
  pub status_text : String
  pub headers : List (String × String)

abbrev pub content_type : Browser → Received → String
content_type b r = b.lower (attribute_of "content-type" r.headers)

abbrev pub is_streaming : String → Bool
is_streaming type =
    contains type "text/event-stream"
    || (contains type "application/stream" || contains type "application/x-ndjson")

abbrev pub is_binary : String → Bool
is_binary type = contains_some type (
    "image/" ∷ "video/" ∷ "audio/" ∷ "application/octet-stream" ∷ "application/pdf"
    ∷ "application/zip" ∷ [])

-- What is recorded of a body without reading it; `none` if it is read.
unfoldable pub unread_body : Browser → Received → Option String
unfolding leading_number
unread_body b r =
    if is_streaming (content_type b r)
    then some "[Streaming response - not captured]"
    else if ltb max_body_length (leading_number 0 (attribute_of "content-length" r.headers))
    then some (
        Text.◌++◌ "[Response too large: "
          (Text.◌++◌ (attribute_of "content-length" r.headers) " bytes]"))
    else if is_binary (content_type b r)
    then some (Text.◌++◌ "[Binary content: " (Text.◌++◌ (content_type b r) "]"))
    else none

unfoldable pub response_value : Received → Value → Value
response_value r body = object (
    field "status" (natural r.status) (
      field "statusText" (string r.status_text)
        (field "headers" (object (header_fields r.headers)) (field "body" body end))))

-- A text of a body: parsed, unless it is too long.
unfoldable pub text_body : Browser → String → Value
unfolding sanitize_value try_parse_json
text_body b s =
    if ltb max_body_length (Text.count s)
    then string (Text.◌++◌ (take_text max_body_length s) "...[truncated]")
    else sanitize_value b.lower 0 (try_parse_json b.parse (string s))

-- The event that tells of a response of 400 or more.
unfoldable pub log_status : Browser → String → Pending → Received → Moment → Store → Store
log_status b kind p r m s =
    if leb 400 r.status
    then log_ui_event b "network_error"
        (object (
          field "kind" (string kind) (
            field "method" (string p.method) (
              field "url" (string p.url) (
                field "status" (natural r.status)
                  (field "statusText" (string r.status_text) end))))))
        m s
    else s

unfoldable pub log_failure : Browser → String → Pending → Value → Moment → Store → Store
log_failure b kind p message = log_ui_event b "network_error" (
    object (
      field "kind" (string kind) (
        field "method" (string p.method)
          (field "url" (string p.url) (field "message" message end)))))

-- A body that is being read, of a response that has come.
pub record Reading : Type 0 where
  pub pending : Pending
  pub received : Received
  pub duration : ℕ

abbrev pub push_unread : Option String → Pending → Received → ℕ → Store → Store
push_unread none p r duration s = s
push_unread (some body) p r duration s =
    push_network (entry_value p (response_value r (string body)) (natural duration) null) s

-- A response of `fetch`: what is recorded at once.
unfoldable pub receive_fetch : Browser → Pending → Received → Moment → Store → Store
unfolding unread_body response_value entry_value
receive_fetch b p r m s =
    push_unread (unread_body b r) p r (m.now - p.start_time) (log_status b "fetch" p r m s)

abbrev pub body_or_note : Browser → Result String → Value
body_or_note b (ok s) = text_body b s
body_or_note b (thrown e) = string "[Unable to read body]"

-- The body that was read, or could not be.
unfoldable pub receive_body : Browser → Reading → Result String → Store → Store
unfolding text_body response_value entry_value
receive_body b w body = push_network (
    entry_value w.pending (response_value w.received (body_or_note b body)) (natural w.duration)
      null)

-- `fetch` fails.
unfoldable pub fail_fetch : Browser → Pending → Value → Value → Moment → Store → Store
unfolding entry_value
fail_fetch b p message stack m s = log_failure b "fetch" p message m (
    push_network
      (entry_value p null (natural (m.now - p.start_time))
        (object (field "message" message (field "stack" stack end))))
      s)
