-- ===== src/AssetVerifier/Accepted.antt =====
-- The arguments that the loop of `parseVerifierArgs` reads to its end, and what it then has.
use Prim.Native.String as Text
use text.Mathlib.Text.{◌==◌ as str_eq, starts_with}
use text.Mathlib.TextEquality.{eq_iff, starts_with_iff}
use mathlib.Core.List.{append-nil, append_assoc}
use mathlib.Core.Bool.{false≢true}
use mathlib.Core.Path.{subst}
use block_chain.Common.{
  String, true, false, List, [], ◌∷◌, ◌++◌, Option, none, some, ◌≡◌, ◌≢◌, ◌↔◌, refl, sym, ap, ◌∙◌,
  Bool-cases, inl, inr, All, or-eq-false,
}
use block_chain.Js.{ok, drop_text}
use block_chain.AssetVerifier.Arguments.{
  Options, lookup_option, inherited, is_one_of, is_given, is_set, is_missing, options, scan_args,
}
use block_chain.AssetVerifier.Printed.{
  arguments_of, IsOption, IsDistinct, IsFresh, drop_dashes, not_same, scan_args-arguments_of,
}

dashed_flag :
    (flag : String) → starts_with flag "--" ≡ true → flag ≡ Text.◌++◌ "--" (drop_text 2 flag)
dashed_flag flag h =
    let (k, same) = (starts_with_iff flag "--").0 h in
    sym same ∙ ap (Text.◌++◌ "--") (sym (drop_dashes k) ∙ ap (drop_text 2) same)

different : (s t : String) → str_eq s t ≡ false → s ≢ t
different s t h e = false≢true (sym h ∙ (eq_iff s t).1 e)

lookup-append-none :
    (key k v : String) (values : Options)
    → lookup_option key (values ++ (k, v) ∷ []) ≡ none
    → (lookup_option key values ≡ none) × (str_eq k key ≡ false)
lookup-append-none key k v [] h = elim (Bool-cases (str_eq k key)) [
  | inl e ↦ cc (rw e at h)
  | inr e ↦ (refl, e)
]
lookup-append-none key k v ((j, w) ∷ values) h = elim (Bool-cases (str_eq j key)) [
  | inl e ↦ cc (rw e at h)
  | inr e ↦ rw e (lookup-append-none key k v values (rw e at h))
]

-- What is fresh beside a longer list is fresh beside the shorter one, and does not have the last key.
IsFresh-shorter :
    (values : Options) (k v : String) (rest : Options)
    → IsFresh (values ++ (k, v) ∷ []) rest
    → IsFresh values rest × (lookup_option k rest ≡ none)
IsFresh-shorter values k v [] h = (tt, refl)
IsFresh-shorter values k v ((j, w) ∷ rest) (fresh, h) =
    let (here, other) = lookup-append-none j k v values fresh in
    let (later, once) = IsFresh-shorter values k v rest h in
    ((here, later), rw (not_same k j other) once)

-- How the rest of the arguments is read: as options that are fresh beside those that were read before.
abbrev ReadsOn : List String → Options → Options → Type 0
ReadsOn argv values found =
    (ps : Options) × (found ≡ values ++ ps)
    × (argv ≡ arguments_of ps)
    × All IsOption ps
    × IsDistinct ps
    × IsFresh values ps

fresh_key :
    (k : String) (values : Options)
    → is_set k values ≡ false
    → (is_one_of inherited k ≡ false) × (lookup_option k values ≡ none)
unfolding is_set
fresh_key k values h =
    let (named, given) =
      or-eq-false (is_one_of inherited k) (is_given (lookup_option k values)) h in
    (named, not_given (lookup_option k values) given)
  where
    not_given : (o : Option String) → is_given o ≡ false → o ≡ none
    not_given none e = refl
    not_given (some v) e = cc

filled_value : (v : String) → is_missing v ≡ false → (v ≢ "") × (starts_with v "--" ≡ false)
unfolding is_missing
filled_value v h =
    let (filled, plain) = or-eq-false (str_eq v "") (starts_with v "--") h in
    (different v "" filled, plain)

not_help_key : (k : String) → str_eq (Text.◌++◌ "--" k) "--help" ≡ false → k ≢ "help"
not_help_key k h e = different _ _ h (ap (Text.◌++◌ "--") e)

reads_pair :
    (flag value : String) (rest : List String) (values found : Options)
    → starts_with flag "--" ≡ true
    → str_eq flag "--help" ≡ false
    → is_missing value ≡ false
    → is_set (drop_text 2 flag) values ≡ false
    → ReadsOn rest (values ++ (drop_text 2 flag, value) ∷ []) found
    → ReadsOn (flag ∷ value ∷ rest) values found
reads_pair flag value rest values found dash other present unset (ps, all, same, o, d, fresh) =
    let k = drop_text 2 flag in
    let is_flag = dashed_flag flag dash in
    let (named, once) = fresh_key k values unset in
    let (filled, plain) = filled_value value present in
    let (later, no_more) = IsFresh-shorter values k value ps fresh in
    (
      (k, value) ∷ ps,
      all ∙ append_assoc values ((k, value) ∷ []) ps,
      ap (λ f. f ∷ value ∷ rest) is_flag ∙ ap (λ l. Text.◌++◌ "--" k ∷ value ∷ l) same,
      (
        (
          not_help_key k (subst (λ f. str_eq f "--help" ≡ false) is_flag other),
          named,
          filled,
          plain,
        ),
        o,
      ),
      (no_more, d),
      (once, later),
    )

scan_args_sound :
    (argv : List String) (values found : Options)
    → scan_args argv values ≡ ok (options found)
    → ReadsOn argv values found
unfolding scan_args
scan_args_sound [] values found h =
    let same : values ≡ found = cc in ([], sym same ∙ sym (append-nil values), refl, tt, tt, tt)
scan_args_sound (flag ∷ []) values found h = elim (Bool-cases (starts_with flag "--")) [
  | inr bare ↦ cc (rw bare at h)
  | inl dash ↦ elim (Bool-cases (str_eq flag "--help")) [
    | inl asks ↦ cc (rw (dash, asks) at h)
    | inr other ↦ cc (rw (dash, other) at h)
  ]
]
scan_args_sound (flag ∷ value ∷ rest) values found h = elim (Bool-cases (starts_with flag "--")) [
  | inr bare ↦ cc (rw bare at h)
  | inl dash ↦ elim (Bool-cases (str_eq flag "--help")) [
    | inl asks ↦ cc (rw (dash, asks) at h)
    | inr other ↦ elim (Bool-cases (is_missing value)) [
      | inl missing ↦ cc (rw (dash, other, missing) at h)
      | inr present ↦ elim (Bool-cases (is_set (drop_text 2 flag) values)) [
        | inl again ↦ cc (rw (dash, other, present, again) at h)
        | inr unset ↦ reads_pair flag value rest values found dash other present unset (
            scan_args_sound rest (values ++ (drop_text 2 flag, value) ∷ []) found
              (rw (dash, other, present, unset) at h))
      ]
    ]
  ]
]

-- The loop over the arguments ends with some options, no help asked for, just when the arguments are these
-- options' keys, each after two dashes and before its value, in order; no key is "help", stands twice or
-- is one of the twelve names that an object inherits; and no value is empty or starts with two dashes.
pub scan_args-options_iff :
    (argv : List String) (ps : Options)
    → (scan_args argv [] ≡ ok (options ps))
      ↔ ((argv ≡ arguments_of ps) × All IsOption ps × IsDistinct ps)
scan_args-options_iff argv ps = (
  λ h.
      let (qs, found, same, o, d, fresh) = scan_args_sound argv [] ps h in
      subst (λ l. (argv ≡ arguments_of l) × All IsOption l × IsDistinct l) (sym found) (same, o, d),
  λ (same, o, d). ap (λ l. scan_args l []) same ∙ scan_args-arguments_of ps o d,
)
