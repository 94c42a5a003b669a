-- ===== src/LogCollector/Middleware.antt =====
-- The plugin's middleware for POST /__manus__/logs.
use text.Mathlib.Text.{◌==◌ as str_eq}
use block_chain.Common.{ℕ, String, Bool, true, false, Option, none, some, if◌then◌else◌}
use block_chain.Js.{
  Engine, Error, Value, boolean, string, array, object, items, end, field, Result, ok, thrown, get,
  above_zero, is_nullish, type_error, ◌>>=◌,
}
use block_chain.Js.Effects.{Run, lift, pure, modify}
use block_chain.Js.Effects as Effects
use block_chain.LogCollector.Write.{
  Logs, LogSource, browser_console, network_requests, session_replay, write_to_log_file,
}

pub record LogRequest : Type 0 where
  pub method : String
  -- `req.body`, where a parser has set it.
  pub parsed_body : Option Value
  -- What the `data` events add up to.
  pub text : String

-- What the middleware does with a request: hand it on, or answer.
pub data Answer : Type 0 where
  next : Answer
  respond : (status : ℕ) → (body : Value) → Answer

abbrev pub success : Answer
success = respond 200 (object (field "success" (boolean true) end))

-- `numeric` is whether a text reads as a number above 0, `error_text` is `String(e)`, `parse` is
-- `JSON.parse`.
module _ (js : Engine) (numeric : String → Bool) (error_text : Error → String)
    (parse : String → Result Value) (clock : ℕ → String) (stringify : Value → String) where
  -- `payload.key?.length > 0`.
  unfoldable pub has_entries : Value → Result Bool
  unfolding above_zero
  has_entries entries =
      if is_nullish entries
      then ok false
      else do count ← get js entries "length"; above_zero js numeric count

  -- `writeToLogFile(source, entries)`: only an array has `map`.
  unfoldable pub write_entries : LogSource → Value → Run Logs (Unit {0})
  unfolding write_to_log_file
  write_entries source (array vs) = modify (write_to_log_file clock stringify source (items vs))
  write_entries source v = lift (type_error js "map")

  unfoldable pub write_if : Bool → LogSource → Value → Run Logs (Unit {0})
  unfolding write_entries
  write_if true source entries = write_entries source entries
  write_if false source entries = pure tt

  unfoldable pub write_part : LogSource → String → Value → Run Logs (Unit {0})
  unfolding write_if
  write_part source key payload = Effects.◌>>=◌ (lift (get js payload key)) λ entries.
      Effects.◌>>=◌ (lift (has_entries entries))
        λ some_entries. write_if some_entries source entries

  -- `handlePayload` as far as its answer.
  unfoldable pub handle_payload : Value → Run Logs (Unit {0})
  unfolding write_part
  handle_payload payload = Effects.◌>>=◌ (write_part browser_console "consoleLogs" payload) λ _.
      Effects.◌>>=◌ (write_part network_requests "networkRequests" payload)
        λ _. write_part session_replay "sessionEvents" payload

  unfoldable pub answer_for : Result (Unit {0}) → Answer
  answer_for (ok _) = success
  answer_for (thrown e) =
      respond 400
        (object (field "success" (boolean false) (field "error" (string (error_text e)) end)))

  unfoldable pub answer_payload : Value → Logs → Answer × Logs
  unfolding handle_payload answer_for
  answer_payload payload l = let (r, l') = handle_payload payload l in (answer_for r, l')

  unfoldable pub answer_text : Result Value → Logs → Answer × Logs
  unfolding answer_payload answer_for
  answer_text (ok payload) l = answer_payload payload l
  answer_text (thrown e) l = (answer_for (thrown e), l)

  -- `reqBody && typeof reqBody === "object"`.
  unfoldable pub is_object : Value → Bool
  is_object (object _) = true
  is_object (array _) = true
  is_object _ = false

  unfoldable pub answer_body : Option Value → String → Logs → Answer × Logs
  unfolding is_object answer_text
  answer_body none text l = answer_text (parse text) l
  answer_body (some v) text l =
      if is_object v then answer_payload v l else answer_text (parse text) l

  unfoldable pub collect_logs : LogRequest → Logs → Answer × Logs
  unfolding answer_body
  collect_logs req l =
      if str_eq req.method "POST" then answer_body req.parsed_body req.text l else (next, l)
