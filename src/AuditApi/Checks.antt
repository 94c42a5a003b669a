-- ===== src/AuditApi/Checks.antt =====
-- lib/api.ts: the checks of single values, each against what it accepts.
use Prim.Native.Char.{Char, code}
use Prim.Native.String as Text
use text.Mathlib.Text.{◌==◌ as str_eq}
use text.Mathlib.TextEquality.{eq_iff, Char-path}
use text.Mathlib.TextLemmas.{nil-append, cons-append, length-nil, length-cons, length-pos_iff}
use block_chain.Common.{
  ℕ, zero, suc, ◌<◌, ◌≤◌, String, true, Option, none, some, ◌≡◌, ◌≢◌, ◌↔◌, refl, sym, ap, ◌∙◌, leb,
  arith, and-eq-true, and_true, leb→le, Bool-cases, inl, inr,
}
use mathlib.Core.Path.{ap₂}
use block_chain.Js.{Value, string, number, Number, integer, pos, own_or_undefined}
use block_chain.AuditApi.{
  ProjectionStatus, canonical, unfinalized, uncertain, status_text, projection_statuses,
  is_nonempty_text, is_positive_integer, is_nonnegative_integer, is_hex_digit, hex_digits, is_hex,
  includes,
}

abbrev pub IsHexDigits : String → Type 0
IsHexDigits Text.[] = Unit
IsHexDigits (Text.◌∷◌ c s) = (is_hex_digit (code c) ≡ true) × IsHexDigits s

-- "0x" and so many hexadecimal digits.
abbrev pub IsHexText : String → ℕ → Type 0
IsHexText s n = (d : String) × (s ≡ Text.◌++◌ "0x" d) × (Text.count d ≡ n) × IsHexDigits d

pub le→leb : {n : ℕ} → 1 ≤ n → leb 1 n ≡ true
le→leb h = ground arith

pub own-string :
    (o : Option Value) (s : String) → own_or_undefined o ≡ string s → o ≡ some (string s)
own-string none s e = cc
own-string (some v) s e = cc

pub own-number :
    (o : Option Value) (n : Number) → own_or_undefined o ≡ number n → o ≡ some (number n)
own-number none n e = cc
own-number (some v) n e = cc

pub is_nonempty_text_iff : (s : String) → (is_nonempty_text (string s) ≡ true) ↔ (s ≢ "")
unfolding is_nonempty_text
is_nonempty_text_iff s =
    (λ h. length-pos_iff.0 (leb→le 1 (Text.count s) h), λ h. le→leb (length-pos_iff.1 h))

pub is_nonempty_text_sound :
    (v : Value) → is_nonempty_text v ≡ true → (s : String) × (v ≡ string s) × (s ≢ "")
unfolding is_nonempty_text
is_nonempty_text_sound (string s) h = (s, refl, (is_nonempty_text_iff s).0 h)
is_nonempty_text_sound _ h = cc

pub is_positive_integer_sound :
    (v : Value) → is_positive_integer v ≡ true → (n : ℕ) × (v ≡ number (integer (pos n))) × (0 < n)
unfolding is_positive_integer
is_positive_integer_sound (number (integer (pos n))) h = (n, refl, ground arith)
is_positive_integer_sound _ h = cc

pub is_nonnegative_integer_sound :
    (v : Value) → is_nonnegative_integer v ≡ true → (n : ℕ) × (v ≡ number (integer (pos n)))
unfolding is_nonnegative_integer
is_nonnegative_integer_sound (number (integer (pos n))) h = (n, refl)
is_nonnegative_integer_sound _ h = cc

pub hex_digits_iff :
    (n : ℕ) (s : String) → (hex_digits n s ≡ true) ↔ ((Text.count s ≡ n) × IsHexDigits s)
unfolding hex_digits
hex_digits_iff zero Text.[] = (λ h. (length-nil, tt), λ h. refl)
hex_digits_iff zero (Text.◌∷◌ c s) = (λ h. cc, λ h. absurd (omega (arith, length-cons c s)))
hex_digits_iff (suc n) Text.[] = (λ h. cc, λ h. absurd (omega (arith, length-nil)))
hex_digits_iff (suc n) (Text.◌∷◌ c s) =
    let (to, from) = hex_digits_iff n s in
    (
      λ h.
          let (digit, rest) = and-eq-true (is_hex_digit (code c)) (hex_digits n s) h in
          (length-cons c s ∙ ap suc (to rest).0, (digit, (to rest).1)),
      λ h. and_true h.1.0 (from (omega (arith, length-cons c s), h.1.1)),
    )

pub includes_sound :
    (v : Value)
    → includes projection_statuses v ≡ true
    → (p : ProjectionStatus) × (v ≡ string (status_text p))
unfolding includes
includes_sound (string s) h = elim (Bool-cases (str_eq "canonical" s)) [
  | inl e ↦ (canonical, ap string (sym ((eq_iff "canonical" s).0 e)))
  | inr e ↦ elim (Bool-cases (str_eq "unfinalized" s)) [
    | inl f ↦ (unfinalized, ap string (sym ((eq_iff "unfinalized" s).0 f)))
    | inr f ↦ elim (Bool-cases (str_eq "uncertain" s)) [
      | inl g ↦ (uncertain, ap string (sym ((eq_iff "uncertain" s).0 g)))
      | inr g ↦ cc
    ]
  ]
]
includes_sound _ h = cc

pub includes_complete :
    (p : ProjectionStatus) → includes projection_statuses (string (status_text p)) ≡ true
unfolding includes
includes_complete canonical = refl
includes_complete unfinalized = refl
includes_complete uncertain = refl

pub hex_prefix : (d : String) → Text.◌++◌ "0x" d ≡ Text.◌∷◌ "0" (Text.◌∷◌ "x" d)
hex_prefix d =
    cons-append "0" "x" d
    ∙ ap (λ t. Text.◌∷◌ "0" t) (cons-append "x" "" d ∙ ap (λ t. Text.◌∷◌ "x" t) (nil-append d))

pub is_hex_sound :
    (v : Value) (n : ℕ) → is_hex v n ≡ true → (s : String) × (v ≡ string s) × IsHexText s n
unfolding is_hex
is_hex_sound (string (Text.◌∷◌ c (Text.◌∷◌ d s))) n h =
    let zero_first : code c ≡ b'0' = ground arith in
    let x_second : code d ≡ b'x' = ground arith in
    let digits : hex_digits n s ≡ true = ground arith in
    let (size, each) = (hex_digits_iff n s).0 digits in
    (
      Text.◌∷◌ c (Text.◌∷◌ d s),
      refl,
      (
        s,
        ap₂ (λ (a b : Char). Text.◌∷◌ a (Text.◌∷◌ b s)) (Char-path c "0" zero_first)
              (Char-path d "x" x_second)
            ∙ sym (hex_prefix s),
        size,
        each,
      ),
    )
is_hex_sound (string Text.[]) n h = cc
is_hex_sound (string (Text.◌∷◌ c Text.[])) n h = cc
is_hex_sound _ n h = cc

pub is_hex_complete : (s : String) (n : ℕ) → IsHexText s n → is_hex (string s) n ≡ true
unfolding is_hex
is_hex_complete s n (d, e, size, each) = rw (e ∙ hex_prefix d) ((hex_digits_iff n d).1 (size, each))
