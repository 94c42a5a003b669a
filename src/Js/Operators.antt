-- ===== src/Js/Operators.antt =====
-- Reading properties, `String(v)` in template texts, and `slice`. What the language leaves to the
-- engine (the digits of a number, the wording of a `TypeError`) is a parameter.
use Prim.Native.Char.{code}
use Prim.Native.String as Text
use text.Mathlib.Text.{◌==◌ as str_eq, starts_with}
use block_chain.Common.{
  ◌+◌, ◌*◌, ◌&&◌, leb, Bool, true, false, not, ◌||◌, ℕ, zero, suc, String, none, some,
  if◌then◌else◌, ◌-◌,
}
use block_chain.Js.Data.{
  Value, undefined, null, boolean, number, string, array, object, Items, nil, cons, Number, integer,
  negsuc, fraction, infinite, nan, pos, own, own_or_undefined, is_nullish,
}
use block_chain.Js.Completion.{Result, ok, thrown, ◌>>=◌}

pub record Engine : Type 0 where
  pub show_number : Number → String
  pub type_error_message : String → String

abbrev pub take_text : ℕ → String → String
take_text zero s = ""
take_text (suc n) Text.[] = ""
take_text (suc n) (Text.◌∷◌ c s) = Text.◌∷◌ c (take_text n s)

abbrev pub drop_text : ℕ → String → String
drop_text zero s = s
drop_text (suc n) Text.[] = ""
drop_text (suc n) (Text.◌∷◌ c s) = drop_text n s

-- `s.slice(0, n)` and `s.slice(-n)`, with n above 0.
unfoldable pub slice_first : ℕ → String → String
slice_first n s = take_text n s

unfoldable pub slice_last : ℕ → String → String
slice_last n s = drop_text (Text.count s - n) s

items_length : Items → ℕ
items_length nil = 0
items_length (cons v vs) = suc (items_length vs)

take_items : ℕ → Items → Items
take_items zero vs = nil
take_items (suc n) nil = nil
take_items (suc n) (cons v vs) = cons v (take_items n vs)

drop_items : ℕ → Items → Items
drop_items zero vs = vs
drop_items (suc n) nil = nil
drop_items (suc n) (cons v vs) = drop_items n vs

-- `s.includes(t)`, which is `s.indexOf(t) !== -1`.
unfoldable pub contains : String → String → Bool
contains Text.[] t = str_eq t ""
contains (Text.◌∷◌ c s) t = starts_with (Text.◌∷◌ c s) t || contains s t

-- `parseInt(text, 10)` of a text with no sign, where no digits count as 0.
unfoldable pub leading_number : ℕ → String → ℕ
leading_number n Text.[] = n
leading_number n (Text.◌∷◌ c s) =
    let rest = leading_number (n * 10 + (code c - b'0')) s in
    if leb b'0' (code c) && leb (code c) b'9' then rest else n

module _ (js : Engine) where
  abbrev pub type_error {ℓ} : {A : Type ℓ} → String → Result A
  type_error what = thrown (record { name = "TypeError"; message = js.type_error_message what })

  -- `v.key`, for a key that no prototype has but `length` of texts and arrays.
  unfoldable pub get : Value → String → Result Value
  unfolding items_length
  get undefined key = type_error key
  get null key = type_error key
  get (object fs) key = ok (own_or_undefined (own fs key))
  get (array vs) key =
      ok (if str_eq key "length" then number (integer (pos (items_length vs))) else undefined)
  get (string s) key =
      ok (if str_eq key "length" then number (integer (pos (Text.count s))) else undefined)
  get _ key = ok undefined

  -- `v?.key`.
  unfoldable pub get? : Value → String → Result Value
  unfolding get
  get? v key = if is_nullish v then ok undefined else get v key

  -- `v?.slice(0, n)`: an object of `JSON.parse` has no such method.
  unfoldable pub slice_first? : Value → ℕ → Result Value
  unfolding slice_first take_items
  slice_first? undefined n = ok undefined
  slice_first? null n = ok undefined
  slice_first? (string s) n = ok (string (slice_first n s))
  slice_first? (array vs) n = ok (array (take_items n vs))
  slice_first? _ n = type_error "slice"

  -- `v.slice(0, n)` and `v.slice(-n)`.
  unfoldable pub slice_to : Value → ℕ → Result Value
  unfolding slice_first take_items
  slice_to (string s) n = ok (string (slice_first n s))
  slice_to (array vs) n = ok (array (take_items n vs))
  slice_to _ n = type_error "slice"

  unfoldable pub slice_from_end : Value → ℕ → Result Value
  unfolding slice_last drop_items items_length
  slice_from_end (string s) n = ok (string (slice_last n s))
  slice_from_end (array vs) n = ok (array (drop_items (items_length vs - n) vs))
  slice_from_end _ n = type_error "slice"

  -- `${v}`. An array joins its elements by commas; an object that has a key `toString` of its own
  -- cannot be converted, since what `JSON.parse` stores there is no function.
  unfoldable mutual
    pub to_text : Value → Result String
    to_text undefined = ok "undefined"
    to_text null = ok "null"
    to_text (boolean b) = ok (if b then "true" else "false")
    to_text (number n) = ok (js.show_number n)
    to_text (string s) = ok s
    to_text (array vs) = join_items vs
    to_text (object fs) = elim (own fs "toString") [
      | none ↦ ok "[object Object]"
      | some v ↦ type_error "toString"
    ]

    pub join_items : Items → Result String
    join_items nil = ok ""
    join_items (cons v vs) = do s ← element_text v; rest ← join_rest vs; ok (Text.◌++◌ s rest)

    pub join_rest : Items → Result String
    join_rest nil = ok ""
    join_rest (cons v vs) = do
      s ← element_text v
      rest ← join_rest vs
      ok (Text.◌++◌ "," (Text.◌++◌ s rest))

    pub element_text : Value → Result String
    element_text undefined = ok ""
    element_text null = ok ""
    element_text (boolean b) = ok (if b then "true" else "false")
    element_text (number n) = ok (js.show_number n)
    element_text (string s) = ok s
    element_text (array vs) = join_items vs
    element_text (object fs) = elim (own fs "toString") [
      | none ↦ ok "[object Object]"
      | some v ↦ type_error "toString"
    ]

-- `numeric` is whether a text reads as a number above 0.
module _ (js : Engine) (numeric : String → Bool) where
  -- `v > 0`.
  unfoldable pub above_zero : Value → Result Bool
  above_zero undefined = ok false
  above_zero null = ok false
  above_zero (boolean b) = ok b
  above_zero (number (integer (pos zero))) = ok false
  above_zero (number (integer (pos (suc n)))) = ok true
  above_zero (number (integer (negsuc n))) = ok false
  above_zero (number (fraction negative s)) = ok (not negative)
  above_zero (number (infinite negative)) = ok (not negative)
  above_zero (number nan) = ok false
  above_zero (string s) = ok (numeric s)
  above_zero v = do s ← to_text js v; ok (numeric s)
