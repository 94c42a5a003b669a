-- ===== src/AuditApi.antt =====
-- lib/api.ts of the web application (apps/web/src/lib/api.ts): the audit projection's client.
pub mod Checks
pub mod Contract
pub mod Payload
pub mod Client
mod Tests
use Prim.Native.Char.{code}
use Prim.Native.String as Text
use text.Mathlib.Text.{◌==◌ as str_eq}
use block_chain.Common.{
  ℕ, zero, suc, String, Bool, true, false, ◌&&◌, ◌||◌, List, [], ◌∷◌, Option, none, some, map,
  if◌then◌else◌, leb, ◌==◌, all,
}
use block_chain.Js.{
  Engine, Value, undefined, string, number, array, object, Number, integer, ℤ, pos, negsuc, items,
  is_true, own, own_or_undefined, Error, Result, ok, thrown, ◌>>=◌,
}
use block_chain.Fetch.{Request, Response, Reply, response}

pub data ProjectionStatus : Type 0 where
  canonical unfinalized uncertain : ProjectionStatus

-- The text that the type's value is in the source.
abbrev pub status_text : ProjectionStatus → String
status_text canonical = "canonical"
status_text unfinalized = "unfinalized"
status_text uncertain = "uncertain"

abbrev pub projection_statuses : List String
projection_statuses = "canonical" ∷ "unfinalized" ∷ "uncertain" ∷ []

pub record AuditEvent : Type 0 where
  pub event_id : String
  pub chain_id : ℕ
  pub contract_address : String
  pub transaction_hash : String
  pub log_index : ℕ
  pub block_number : ℕ
  pub event_name : String
  pub projection_status : ProjectionStatus

abbrev pub audit_api_unavailable_error : String → Error
audit_api_unavailable_error message = record {
  name = "AuditApiUnavailableError";
  message = message;
}

-- White space and line ends, which `trim` takes off.
unfoldable pub is_space : ℕ → Bool
is_space c =
    (leb 9 c && leb c 13)
    || c == 0x20
    || c == 0xa0
    || c == 0x1680
    || (leb 0x2000 c && leb c 0x200a)
    || c == 0x2028
    || c == 0x2029
    || c == 0x202f
    || c == 0x205f
    || c == 0x3000
    || c == 0xfeff

pub trim_start : String → String
unfolding is_space
trim_start Text.[] = ""
trim_start (Text.◌∷◌ c s) =
    let rest = trim_start s in if is_space (code c) then rest else Text.◌∷◌ c s

-- A character in front of a text, unless both are nothing but space.
pub trim_before : Bool → String → String → String
trim_before space c Text.[] = if space then "" else c
trim_before space c s = Text.◌++◌ c s

pub trim_end : String → String
unfolding is_space trim_before
trim_end Text.[] = ""
trim_end (Text.◌∷◌ c s) = trim_before (is_space (code c)) (Text.◌∷◌ c "") (trim_end s)

pub trim : String → String
unfolding trim_start trim_end
trim s = trim_end (trim_start s)

-- `.replace(/\/$/, "")`.
pub drop_final_slash : String → String
drop_final_slash Text.[] = ""
drop_final_slash (Text.◌∷◌ c Text.[]) = if code c == b'/' then "" else Text.◌∷◌ c ""
drop_final_slash (Text.◌∷◌ c (Text.◌∷◌ d s)) = Text.◌∷◌ c (drop_final_slash (Text.◌∷◌ d s))

-- The argument is `import.meta.env.VITE_API_BASE_URL`.
pub api_base_url : Option String → Option String
unfolding trim drop_final_slash
api_base_url none = none
api_base_url (some url) =
    let candidate = trim url in
    if str_eq candidate "" then none else some (drop_final_slash candidate)

pub is_record : Value → Bool
is_record (object _) = true
is_record (array _) = true
is_record _ = false

-- `value.key` of a record. An array has none of the contract's keys.
pub prop : Value → String → Value
prop (object fs) key = own_or_undefined (own fs key)
prop _ key = undefined

pub is_nonempty_text : Value → Bool
is_nonempty_text (string s) = leb 1 (Text.count s)
is_nonempty_text _ = false

pub is_positive_integer : Value → Bool
is_positive_integer (number (integer (pos n))) = leb 1 n
is_positive_integer _ = false

pub is_nonnegative_integer : Value → Bool
is_nonnegative_integer (number (integer (pos n))) = true
is_nonnegative_integer _ = false

abbrev pub is_hex_digit : ℕ → Bool
is_hex_digit c =
    (leb b'0' c && leb c b'9') || (leb b'a' c && leb c b'f') || (leb b'A' c && leb c b'F')

-- Exactly so many hexadecimal digits, and the text's end.
unfoldable pub hex_digits : ℕ → String → Bool
hex_digits zero Text.[] = true
hex_digits (suc n) (Text.◌∷◌ c s) = is_hex_digit (code c) && hex_digits n s
hex_digits _ _ = false

pub is_hex_text : String → ℕ → Bool
unfolding hex_digits
is_hex_text (Text.◌∷◌ c (Text.◌∷◌ d s)) digits =
    code c == b'0' && code d == b'x' && hex_digits digits s
is_hex_text _ digits = false

pub is_hex : Value → ℕ → Bool
unfolding is_hex_text
is_hex (string s) digits = is_hex_text s digits
is_hex _ digits = false

-- `projectionStatuses.includes(value)`.
pub includes : List String → Value → Bool
includes [] v = false
includes (t ∷ ts) (string s) = str_eq t s || includes ts (string s)
includes (t ∷ ts) v = false

pub is_audit_event : Value → Bool
unfolding is_record prop is_nonempty_text is_positive_integer is_nonnegative_integer is_hex includes
is_audit_event value =
    is_record value
    && is_nonempty_text (prop value "event_id")
    && is_positive_integer (prop value "chain_id")
    && is_hex (prop value "contract_address") 40
    && is_hex (prop value "transaction_hash") 64
    && is_nonnegative_integer (prop value "log_index")
    && is_nonnegative_integer (prop value "block_number")
    && is_nonempty_text (prop value "event_name")
    && includes projection_statuses (prop value "projection_status")

pub every_is_audit_event : Value → Bool
unfolding is_audit_event
every_is_audit_event (array vs) = all is_audit_event (items vs)
every_is_audit_event _ = false

pub is_audit_response : Value → Bool
unfolding is_record prop every_is_audit_event
is_audit_response value =
    is_record value
    && is_true (prop value "projection_only")
    && every_is_audit_event (prop value "events")

pub record Filters : Type 0 where
  pub limit : Number
  pub projection_status : Option ProjectionStatus

-- A call of the client: it fails at once, or sends one request and goes on with the reply.
pub data Call : Type 0 where
  fails : Error → Call
  sends : Request → (Reply → Result Value) → Call

abbrev pub status_query : Option ProjectionStatus → List (String × String)
status_query none = []
status_query (some s) = ("projection_status", status_text s) ∷ []

pub check_payload : Value → Result Value
unfolding is_audit_response
check_payload payload =
    if is_audit_response payload
    then ok (prop payload "events")
    else thrown (
        audit_api_unavailable_error
          "The audit response did not match the sanitized projection contract.")

-- `encode` is `URLSearchParams`' serialisation.
module _ (js : Engine) (encode : List (String × String) → String) where
  pub audit_request : String → Filters → Request
  audit_request base_url filters =
      let query =
        ("limit", js.show_number filters.limit) ∷ status_query filters.projection_status in
      record {
        method = "GET";
        url = Text.◌++◌ base_url (Text.◌++◌ "/v1/audit?" (encode query));
        headers = ("Accept", "application/json") ∷ [];
        body = none;
        credentials = some "omit";
      }

  pub read_response : Response → Result Value
  unfolding check_payload
  read_response r =
      if r.ok
      then (r.json >>= check_payload)
      else thrown (
          audit_api_unavailable_error (
            Text.◌++◌ "The audit projection is unavailable (" (
              Text.◌++◌ (js.show_number r.status)
                "). Authentication and projection readiness remain fail closed.")))

  pub read_reply : Reply → Result Value
  unfolding read_response
  read_reply reply = response reply >>= read_response

  abbrev no_base_url : Call
  no_base_url = fails (
      audit_api_unavailable_error
        "No API base URL is configured. The console is intentionally showing no illustrative chain data.")

  pub list_audit_events : Option String → Filters → Call
  unfolding audit_request read_reply
  list_audit_events none filters = no_base_url
  list_audit_events (some base_url) filters =
      if str_eq base_url "" then no_base_url else sends (audit_request base_url filters) read_reply

pub status_label : ProjectionStatus → String
status_label canonical = "Canonical"
status_label unfinalized = "Unfinalized"
status_label uncertain = "Uncertain"
