-- ===== src/DebugCollector/Sanitize.antt =====
-- `CONFIG`, and `sanitizeValue` with what it uses. A value is a finite tree: a value that holds itself is
-- cut at the same depth. Functions are no values here; the source passes them on.
use Prim.Native.String as Text
use text.Mathlib.Text.{◌==◌ as str_eq}
use block_chain.Common.{ℕ, zero, suc, String, Bool, false, ◌||◌, List, [], ◌∷◌, if◌then◌else◌, ltb}
use block_chain.Js.{
  Value, undefined, null, boolean, number, string, array, object, Items, nil, cons, Fields, end,
  field, Result, ok, thrown, take_text, contains,
}

abbrev pub sensitive_fields : List String
sensitive_fields =
    "password" ∷ "token" ∷ "secret" ∷ "key" ∷ "authorization" ∷ "cookie" ∷ "session" ∷ []

abbrev pub max_body_length : ℕ
max_body_length = 10240

abbrev pub contains_some : String → List String → Bool
contains_some s [] = false
contains_some s (t ∷ ts) = contains s t || contains_some s ts

unfoldable pub cut_text : String → String
cut_text s = if ltb 1000 (Text.count s) then Text.◌++◌ (take_text 1000 s) "...[truncated]" else s

-- `lower` is `toLowerCase`.
module _ (lower : String → String) where
  unfoldable pub is_sensitive : String → Bool
  is_sensitive key = contains_some (lower key) sensitive_fields

  -- `sanitized[k] = v` on an object that started empty: the key `__proto__` sets no property.
  abbrev pub set_field : String → Value → Fields → Fields
  set_field k v rest = if str_eq k "__proto__" then rest else field k v rest

  unfoldable mutual
    unfolding cut_text is_sensitive

    pub sanitize_value : ℕ → Value → Value
    sanitize_value depth undefined = if ltb 5 depth then string "[Max Depth]" else undefined
    sanitize_value depth null = if ltb 5 depth then string "[Max Depth]" else null
    sanitize_value depth (boolean b) = if ltb 5 depth then string "[Max Depth]" else boolean b
    sanitize_value depth (number n) = if ltb 5 depth then string "[Max Depth]" else number n
    sanitize_value depth (string s) =
        if ltb 5 depth then string "[Max Depth]" else string (cut_text s)
    sanitize_value depth (array vs) =
        if ltb 5 depth then string "[Max Depth]" else array (sanitize_items 100 (suc depth) vs)
    sanitize_value depth (object fs) =
        if ltb 5 depth then string "[Max Depth]" else object (sanitize_fields (suc depth) fs)

    -- Of so many items at most.
    pub sanitize_items : ℕ → ℕ → Items → Items
    sanitize_items zero depth vs = nil
    sanitize_items (suc n) depth nil = nil
    sanitize_items (suc n) depth (cons v vs) =
        cons (sanitize_value depth v) (sanitize_items n depth vs)

    pub sanitize_fields : ℕ → Fields → Fields
    sanitize_fields depth end = end
    sanitize_fields depth (field k v fs) =
        set_field k (if is_sensitive k then string "[REDACTED]" else sanitize_value depth v)
          (sanitize_fields depth fs)

-- `tryParseJson`, where `parse` is `JSON.parse`.
abbrev parsed_or : Value → Result Value → Value
parsed_or str (ok v) = v
parsed_or str (thrown e) = str

unfoldable pub try_parse_json : (String → Result Value) → Value → Value
try_parse_json parse (string s) = parsed_or (string s) (parse s)
try_parse_json parse undefined = undefined
try_parse_json parse null = null
try_parse_json parse (boolean b) = boolean b
try_parse_json parse (number n) = number n
try_parse_json parse (array vs) = array vs
try_parse_json parse (object fs) = object fs
