-- ===== src/AssetVerifier/Printed.antt =====
-- The loop of `parseVerifierArgs` over arguments that come in pairs.
use Prim.Native.String as Text
use text.Mathlib.Text.{◌==◌ as str_eq, starts_with}
use text.Mathlib.TextEquality.{eq_iff}
use text.Mathlib.TextPositions.{starts_with-append}
use text.Mathlib.TextLemmas.{append_cancel_left, cons-append, nil-append}
use mathlib.Core.List.{append-nil, append_assoc}
use mathlib.Core.Bool.{false≢true}
use block_chain.Common.{
  String, true, false, ◌||◌, List, [], ◌∷◌, ◌++◌, none, ◌≡◌, ◌≢◌, refl, sym, ap, ◌∙◌, Bool-cases,
  inl, inr, All,
}
use block_chain.Js.{ok, drop_text}
use block_chain.AssetVerifier.Arguments.{
  Options, lookup_option, inherited, is_one_of, is_given, is_set, is_missing, options, scan_args,
}

-- `--key value`, for each option.
abbrev pub arguments_of : Options → List String
arguments_of [] = []
arguments_of ((k, v) ∷ rest) = Text.◌++◌ "--" k ∷ v ∷ arguments_of rest

-- A key that can be given, and a value that can stand after a key.
abbrev pub IsOption : String × String → Type 0
IsOption (k, v) =
    (k ≢ "help") × (is_one_of inherited k ≡ false) × (v ≢ "") × (starts_with v "--" ≡ false)

-- No key stands twice.
abbrev pub IsDistinct : Options → Type 0
IsDistinct [] = Unit
IsDistinct ((k, v) ∷ rest) = (lookup_option k rest ≡ none) × IsDistinct rest

pub drop_dashes : (k : String) → drop_text 2 (Text.◌++◌ "--" k) ≡ k
drop_dashes k = ap (drop_text 2) (
    cons-append "-" "-" k
    ∙ ap (λ s. Text.◌∷◌ "-" s) (cons-append "-" "" k ∙ ap (λ s. Text.◌∷◌ "-" s) (nil-append k)))

not_set :
    (k : String) (values : Options)
    → is_one_of inherited k ≡ false
    → lookup_option k values ≡ none
    → is_set k values ≡ false
unfolding is_set
not_set k values named fresh =
    ap (λ b. b || is_given (lookup_option k values)) named ∙ ap is_given fresh

not_help : (k : String) → k ≢ "help" → str_eq (Text.◌++◌ "--" k) "--help" ≡ false
not_help k other = elim (Bool-cases (str_eq (Text.◌++◌ "--" k) "--help")) [
  | inr e ↦ e
  | inl e ↦ absurd (other (append_cancel_left "--" k "help" ((eq_iff _ _).0 e)))
]

not_missing : (v : String) → v ≢ "" → starts_with v "--" ≡ false → is_missing v ≡ false
unfolding is_missing
not_missing v filled plain = elim (Bool-cases (str_eq v "")) [
  | inl e ↦ absurd (filled ((eq_iff v "").0 e))
  | inr e ↦ rw (e, plain) refl
]

dashed : (k : String) → starts_with (Text.◌++◌ "--" k) "--" ≡ true
dashed k = starts_with-append "--" k

-- No key of the second list stands in the first.
abbrev pub IsFresh : Options → Options → Type 0
IsFresh values [] = Unit
IsFresh values ((k, v) ∷ rest) = (lookup_option k values ≡ none) × IsFresh values rest

lookup-append :
    (key k v : String) (values : Options)
    → lookup_option key values ≡ none
    → str_eq k key ≡ false
    → lookup_option key (values ++ (k, v) ∷ []) ≡ none
lookup-append key k v [] h other = rw other
lookup-append key k v ((j, w) ∷ values) h other = elim (Bool-cases (str_eq j key)) [
  | inl e ↦ cc (rw e at h)
  | inr e ↦ rw e (lookup-append key k v values (rw e at h) other)
]

pub not_same : (j k : String) → str_eq j k ≡ false → str_eq k j ≡ false
not_same j k other = elim (Bool-cases (str_eq k j)) [
  | inr e ↦ e
  | inl e ↦ absurd (false≢true (sym other ∙ (eq_iff j k).1 (sym ((eq_iff k j).0 e))))
]

IsFresh-append :
    (values : Options) (k v : String) (rest : Options)
    → IsFresh values rest
    → lookup_option k rest ≡ none
    → IsFresh (values ++ (k, v) ∷ []) rest
IsFresh-append values k v [] h once = tt
IsFresh-append values k v ((j, w) ∷ rest) (fresh, h) once = elim (Bool-cases (str_eq j k)) [
  | inl e ↦ cc (rw e at once)
  | inr e ↦ (
    lookup-append j k v values fresh (not_same j k e),
    IsFresh-append values k v rest h (rw e at once),
  )
]

scan_from :
    (ps values : Options)
    → All IsOption ps
    → IsDistinct ps
    → IsFresh values ps
    → scan_args (arguments_of ps) values ≡ ok (options (values ++ ps))
unfolding scan_args
scan_from [] values o d h = ap (λ l. ok (options l)) (sym (append-nil values))
scan_from ((k, v) ∷ ps) values ((other, named, filled, plain), o) (once, d) (fresh, h) =
    let rest = scan_from ps (values ++ (k, v) ∷ []) o d (IsFresh-append values k v ps h once) in
    rw
      (
        dashed k,
        not_help k other,
        not_missing v filled plain,
        drop_dashes k,
        not_set k values named fresh,
      )
      (rest ∙ ap (λ l. ok (options l)) (append_assoc values ((k, v) ∷ []) ps))

pub IsFresh-nil : (ps : Options) → IsFresh [] ps
IsFresh-nil [] = tt
IsFresh-nil ((k, v) ∷ ps) = (refl, IsFresh-nil ps)

-- Options with distinct keys that can be given, and with values that are none of the flags, are read back
-- from the arguments that they are written out to, in their order.
pub scan_args-arguments_of :
    (ps : Options)
    → All IsOption ps
    → IsDistinct ps
    → scan_args (arguments_of ps) [] ≡ ok (options ps)
scan_args-arguments_of ps o d = scan_from ps [] o d (IsFresh-nil ps)
