-- ===== src/Js/Data.antt =====
-- JavaScript values as `JSON.parse` makes them, and `undefined`; the operators of the language on
-- them. The keys of an object are distinct. Text is a sequence of code points: positions agree
-- with JavaScript's UTF-16 ones on the basic plane.
use text.Mathlib.Text.{◌==◌ as str_eq}
use block_chain.Common.{
  ℕ, zero, String, Bool, true, false, not, List, [], ◌∷◌, Option, none, some, if◌then◌else◌,
}

-- An integer by its sign and magnitude is `pos n`, or `negsuc n` for -(n + 1).
pub data ℤ : Type 0 where
  pos : ℕ → ℤ
  negsuc : ℕ → ℤ

-- A `fraction` is a finite number that is no integer, with its text.
pub data Number : Type 0 where
  integer : ℤ → Number
  fraction : (negative : Bool) → String → Number
  infinite : (negative : Bool) → Number
  nan : Number

mutual
  pub data Value : Type 0 where
    undefined null : Value
    boolean : Bool → Value
    number : Number → Value
    string : String → Value
    array : Items → Value
    object : Fields → Value

  pub data Items : Type 0 where
    nil : Items
    cons : Value → Items → Items

  pub data Fields : Type 0 where
    end : Fields
    field : String → Value → Fields → Fields

abbrev pub items : Items → List Value
items nil = []
items (cons v vs) = v ∷ items vs

abbrev pub own : Fields → String → Option Value
own end key = none
own (field k v fs) key = if str_eq k key then some v else own fs key

-- `undefined` where the key is absent.
abbrev pub own_or_undefined : Option Value → Value
own_or_undefined none = undefined
own_or_undefined (some v) = v

-- `Boolean(v)`.
abbrev pub truthy_integer : ℤ → Bool
truthy_integer (pos zero) = false
truthy_integer _ = true

abbrev pub truthy : Value → Bool
truthy undefined = false
truthy null = false
truthy (boolean b) = b
truthy (number (integer i)) = truthy_integer i
truthy (number (fraction _ _)) = true
truthy (number (infinite _)) = true
truthy (number nan) = false
truthy (string s) = not (str_eq s "")
truthy (array _) = true
truthy (object _) = true

-- `v || w`.
abbrev pub or_else : Value → Value → Value
or_else v w = if truthy v then v else w

-- `v === "text"` and `v === true`.
abbrev pub is_text : Value → String → Bool
is_text (string s) t = str_eq s t
is_text _ t = false

abbrev pub is_true : Value → Bool
is_true (boolean b) = b
is_true _ = false

abbrev pub is_nullish : Value → Bool
is_nullish undefined = true
is_nullish null = true
is_nullish _ = false
