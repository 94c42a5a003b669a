-- ===== src/DebugCollector/Elements.antt =====
-- How an element of the page and its value are described.
use Prim.Native.Char.{code}
use Prim.Native.String as Text
use text.Mathlib.Text.{◌==◌ as str_eq}
use block_chain.Common.{
  ℕ, String, Bool, true, false, not, ◌&&◌, ◌||◌, List, [], ◌∷◌, if◌then◌else◌, ltb,
}
use block_chain.Js.{
  Value, null, boolean, string, number, integer, pos, object, end, field, take_text,
}
use block_chain.AuditApi.{is_space, trim}
use block_chain.DebugCollector.Sanitize.{contains_some, sensitive_fields}

-- What the script reads of an element. `text` is its `innerText || textContent || ""`, `value` its value as
-- a text, "" if it has none; `unrecorded` is whether it stands in an element of class manus-no-record.
pub record Element : Type 0 where
  pub tag_name : String
  pub id : String
  pub attributes : List (String × String)
  pub text : String
  pub value : String
  pub unrecorded : Bool

-- An event's target, which may be no element.
pub data Target : Type 0 where
  no_element : Target
  element : Element → Target

unfoldable pub should_ignore_target : Target → Bool
should_ignore_target no_element = false
should_ignore_target (element el) = el.unrecorded

abbrev pub ui_input_max_len : ℕ
ui_input_max_len = 200

abbrev pub ui_text_max_len : ℕ
ui_text_max_len = 80

-- `.replace(/\s+/g, " ")`; the flag is whether the character before was a space.
unfoldable pub join_spaces : Bool → String → String
join_spaces after Text.[] = ""
join_spaces after (Text.◌∷◌ c s) =
    let rest = join_spaces (is_space (code c)) s in
    if is_space (code c) then (if after then rest else Text.◌++◌ " " rest) else Text.◌∷◌ c rest

-- A text of at most so many characters, with a sign of what is cut.
unfoldable pub shorten : ℕ → String → String
shorten max_len t = if ltb max_len (Text.count t) then Text.◌++◌ (take_text max_len t) "…" else t

unfoldable pub compact_text : String → ℕ → String
unfolding join_spaces shorten
compact_text s max_len = shorten max_len (join_spaces false (trim s))

abbrev pub attribute_of : String → List (String × String) → String
attribute_of name [] = ""
attribute_of name ((k, v) ∷ rest) = if str_eq k name then v else attribute_of name rest

-- `text || null`.
abbrev pub text_or_null : String → Value
text_or_null s = if str_eq s "" then null else string s

abbrev pub or_text : String → String → String
or_text s t = if str_eq s "" then t else s

module _ (lower : String → String) where
  abbrev pub attr : Element → String → String
  attr el name = attribute_of name el.attributes

  abbrev test_id : Element → String
  test_id el =
      or_text (attr el "data-testid") (or_text (attr el "data-test-id") (attr el "data-test"))

  unfoldable pub selector_hint : Element → String
  selector_hint el =
      if not (str_eq (test_id el) "")
      then Text.◌++◌ "[data-testid=\"" (Text.◌++◌ (test_id el) "\"]")
      else if not (str_eq (attr el "data-loc") "")
      then Text.◌++◌ "[data-loc=\"" (Text.◌++◌ (attr el "data-loc") "\"]")
      else if not (str_eq el.id "")
      then Text.◌++◌ "#" el.id
      else or_text (lower el.tag_name) "unknown"

  unfoldable pub describe_element : Target → Value
  unfolding selector_hint compact_text
  describe_element no_element = null
  describe_element (element el) = object (
      field "tag" (text_or_null (lower el.tag_name)) (
        field "id" (text_or_null el.id) (
          field "name" (text_or_null (attr el "name")) (
            field "type"
              (if str_eq (lower el.tag_name) "input"
                then string (or_text (attr el "type") "text")
                else null)
              (field "role" (text_or_null (attr el "role")) (
                field "ariaLabel" (text_or_null (attr el "aria-label")) (
                  field "testId" (text_or_null (test_id el)) (
                    field "dataLoc" (text_or_null (attr el "data-loc")) (
                      field "href"
                        (if str_eq (lower el.tag_name) "a"
                          then text_or_null (attr el "href")
                          else null)
                        (field "text" (string (compact_text el.text ui_text_max_len))
                          (field "selectorHint" (string (selector_hint el)) end)))))))))))

  unfoldable pub is_sensitive_field : Element → Bool
  is_sensitive_field el =
      (str_eq (lower el.tag_name) "input" || str_eq (lower el.tag_name) "textarea")
      && (str_eq (lower (attr el "type")) "password"
          || (contains_some (lower (attr el "name")) sensitive_fields
              || contains_some (lower el.id) sensitive_fields))

  unfoldable pub has_value : Element → Bool
  has_value el =
      str_eq (lower el.tag_name) "input"
      || (str_eq (lower el.tag_name) "textarea" || str_eq (lower el.tag_name) "select")

  unfoldable pub get_input_value_safe : Target → Value
  unfolding is_sensitive_field has_value shorten
  get_input_value_safe no_element = null
  get_input_value_safe (element el) =
      if not (has_value el)
      then null
      else if is_sensitive_field el
      then object (
          field "masked" (boolean true)
            (field "length" (number (integer (pos (Text.count el.value)))) end))
      else string (shorten ui_input_max_len el.value)
