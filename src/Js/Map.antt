-- ===== src/Js/Map.antt =====
-- `Map` with texts as keys and values: its entries in the order of insertion.
use text.Mathlib.Text.{◌==◌ as str_eq}
use text.Mathlib.TextEquality.{eq_iff}
use mathlib.Core.Bool.{false≢true}
use block_chain.Common.{
  suc, ◌+◌, String, false, List, [], ◌∷◌, Option, none, some, ◌≡◌, refl, sym, ap, ◌∙◌, inl, inr,
  arith, if◌then◌else◌, length, All, Bool-cases, Option-cases,
}

abbrev pub Map : Type 0
Map = List (String × String)

-- `get`, with `none` for undefined.
abbrev pub lookup : String → Map → Option String
lookup key [] = none
lookup key ((k, v) ∷ m) = if str_eq k key then some v else lookup key m

unfoldable pub set_entry : String → String → Map → Map
set_entry key v [] = (key, v) ∷ []
set_entry key v ((k, w) ∷ m) =
    let rest = set_entry key v m in if str_eq k key then (k, v) ∷ m else (k, w) ∷ rest

-- No key stands twice.
abbrev pub IsKeyed : Map → Type 0
IsKeyed [] = Unit
IsKeyed ((k, v) ∷ m) = (lookup k m ≡ none) × IsKeyed m

-- Each entry is one of the other map's.
abbrev pub IsWithin : Map → Map → Type 0
IsWithin m n = All (λ (k, v). lookup k n ≡ some v) m

same_flip : (j k : String) → str_eq j k ≡ false → str_eq k j ≡ false
same_flip j k other = elim (Bool-cases (str_eq k j)) [
  | inr e ↦ e
  | inl e ↦ absurd (false≢true (sym other ∙ (eq_iff j k).1 (sym ((eq_iff k j).0 e))))
]

lookup-set_entry_other :
    (key v i : String) (m : Map) → str_eq key i ≡ false → lookup i (set_entry key v m) ≡ lookup i m
unfolding set_entry
lookup-set_entry_other key v i [] other = rw other refl
lookup-set_entry_other key v i ((k, w) ∷ m) other = elim (Bool-cases (str_eq k key)) [
  | inl same ↦ rw (same, (eq_iff k key).0 same, other) refl
  | inr differ ↦ rw (differ, lookup-set_entry_other key v i m other) refl
]

pub set_entry-IsKeyed : (key v : String) (m : Map) → IsKeyed m → IsKeyed (set_entry key v m)
unfolding set_entry
set_entry-IsKeyed key v [] h = (refl, tt)
set_entry-IsKeyed key v ((k, w) ∷ m) (fresh, h) = elim (Bool-cases (str_eq k key)) [
  | inl same ↦ rw same (fresh, h)
  | inr differ ↦ rw differ (
    lookup-set_entry_other key v k m (same_flip k key differ) ∙ fresh,
    set_entry-IsKeyed key v m h,
  )
]

remove : String → Map → Map
remove key [] = []
remove key ((k, v) ∷ m) = let rest = remove key m in if str_eq k key then m else (k, v) ∷ rest

length-remove :
    (key v : String) (m : Map) → lookup key m ≡ some v → suc (length (remove key m)) ≡ length m
unfolding remove
length-remove key v [] h = cc
length-remove key v ((k, w) ∷ m) h = elim (Bool-cases (str_eq k key)) [
  | inl same ↦ rw same refl
  | inr differ ↦ rw differ (ap suc (length-remove key v m (rw differ at h)))
]

lookup-remove_other :
    (key i : String) (m : Map) → str_eq key i ≡ false → lookup i (remove key m) ≡ lookup i m
unfolding remove
lookup-remove_other key i [] other = refl
lookup-remove_other key i ((k, w) ∷ m) other = elim (Bool-cases (str_eq k key)) [
  | inl same ↦ rw (same, (eq_iff k key).0 same, other) refl
  | inr differ ↦ rw (differ, lookup-remove_other key i m other) refl
]

without : Map → Map → Map
without [] n = n
without ((k, v) ∷ m) n = without m (remove k n)

absent-differs :
    (key k v : String) (m : Map) → lookup key ((k, v) ∷ m) ≡ none → str_eq k key ≡ false
absent-differs key k v m h = elim (Bool-cases (str_eq k key)) [
  | inl same ↦ cc (rw same at h)
  | inr differ ↦ differ
]

absent_later : (key k v : String) (m : Map) → lookup key ((k, v) ∷ m) ≡ none → lookup key m ≡ none
absent_later key k v m h = rw (absent-differs key k v m h) at h

IsWithin-remove :
    (key : String) (m n : Map) → lookup key m ≡ none → IsWithin m n → IsWithin m (remove key n)
IsWithin-remove key [] n absent h = tt
IsWithin-remove key ((k, v) ∷ m) n absent (here, later) = (
  lookup-remove_other key k n (same_flip k key (absent-differs key k v m absent)) ∙ here,
  IsWithin-remove key m n (absent_later key k v m absent) later,
)

length-without : (m n : Map) → IsKeyed m → IsWithin m n → length m + length (without m n) ≡ length n
unfolding without
length-without [] n k h = omega arith
length-without ((key, v) ∷ m) n (fresh, k) (here, later) = omega (
  arith,
  length-remove key v n here,
  length-without m (remove key n) k (IsWithin-remove key m n fresh later),
)

lookup-without : (i : String) (m n : Map) → lookup i m ≡ none → lookup i (without m n) ≡ lookup i n
unfolding without
lookup-without i [] n absent = refl
lookup-without i ((k, v) ∷ m) n absent =
    lookup-without i m (remove k n) (absent_later i k v m absent)
    ∙ lookup-remove_other k i n (absent-differs i k v m absent)

empty : (m : Map) → length m ≡ 0 → m ≡ []
empty [] h = refl
empty (e ∷ m) h = absurd (omega (arith, h))

lookup-IsWithin :
    (i v : String) (m n : Map) → IsWithin m n → lookup i m ≡ some v → lookup i n ≡ some v
lookup-IsWithin i v [] n h found = cc
lookup-IsWithin i v ((k, w) ∷ m) n (here, later) found = elim (Bool-cases (str_eq k i)) [
  | inl same ↦ rw⁻¹ ((eq_iff k i).0 same) (here ∙ (rw same at found))
  | inr differ ↦ lookup-IsWithin i v m n later (rw differ at found)
]

-- A map within another of the same size is the same map.
pub same_size-same :
    (m n : Map)
    → IsKeyed m
    → IsWithin m n
    → length n ≡ length m
    → (i : String) → lookup i n ≡ lookup i m
same_size-same m n k h size i = elim (Option-cases (lookup i m)) [
  | inr (v, found) ↦ lookup-IsWithin i v m n h found ∙ sym found
  | inl absent ↦
      sym (lookup-without i m n absent)
      ∙ ap (lookup i) (empty (without m n) (omega (arith, length-without m n k h, size)))
      ∙ sym absent
]

IsWithin-cons :
    (k v : String) (m n : Map) → lookup k m ≡ none → IsWithin m n → IsWithin m ((k, v) ∷ n)
IsWithin-cons k v [] n absent h = tt
IsWithin-cons k v ((j, w) ∷ m) n absent (here, later) = (
  rw (same_flip j k (absent-differs k j w m absent)) here,
  IsWithin-cons k v m n (absent_later k j w m absent) later,
)

IsWithin-same : (m : Map) → IsKeyed m → IsWithin m m
IsWithin-same [] k = tt
IsWithin-same ((key, v) ∷ m) (fresh, k) =
    (rw ((eq_iff key key).1 refl) refl, IsWithin-cons key v m m fresh (IsWithin-same m k))

IsWithin-trans :
    (l m n : Map) → ((i : String) → lookup i n ≡ lookup i m) → IsWithin l m → IsWithin l n
IsWithin-trans [] m n same h = tt
IsWithin-trans ((k, v) ∷ l) m n same (here, later) =
    (same k ∙ here, IsWithin-trans l m n same later)

-- Maps with the same look-ups are within each other and of the same size.
pub same-IsWithin :
    (m n : Map) → IsKeyed m → ((i : String) → lookup i n ≡ lookup i m) → IsWithin m n
same-IsWithin m n k same = IsWithin-trans m m n same (IsWithin-same m k)

pub same-size :
    (m n : Map)
    → IsKeyed m
    → IsKeyed n
    → ((i : String) → lookup i n ≡ lookup i m)
    → length n ≡ length m
same-size m n k l same = omega (
  arith,
  length-without m n k (same-IsWithin m n k same),
  length-without n m l (same-IsWithin n m l (λ i. sym (same i))),
)
