-- ===== src/AssetVerifier/Expectations.antt =====
-- What a confirmed assessment means.
use text.Mathlib.Text.{◌==◌ as str_eq}
use text.Mathlib.TextEquality.{eq_iff}
use block_chain.Common.{
  ℕ, zero, suc, ◌<◌, String, Bool, true, false, not, ◌++◌, Option, none, some, ◌≡◌, ◌≢◌, ◌↔◌, inl,
  inr, refl, sym, ap, ◌∙◌, arith, Bool-cases, Option-cases, ◌==◌, get_elem?,
}
use mathlib.Core.Bool.{false≢true}
use block_chain.Js.{Result, ok, thrown}
use block_chain.AssetVerifier.Arguments.{Expected, Formats}
use block_chain.AssetVerifier.Evidence.{
  Reading, Assessment, asset_status, differs, name_if, is_empty, evidence_of, mismatches_of,
  assess_status, assess_evidence,
}

-- What is expected, if anything is, is what was read.
abbrev pub Agrees : Option String → String → Type 0
Agrees o actual = (e : String) → o ≡ some e → e ≢ "" → actual ≡ e

-- There is code at the contract's address, and the status is one of the four.
abbrev pub IsReadable : Formats → Reading → Type 0
IsReadable f r = (f.lower r.code ≢ "0x") × (r.status < 4)

abbrev pub Matches : Formats → (String → String) → Expected → Reading → Type 0
Matches f keccak256 expected r =
    (r.network_chain_id ≡ expected.chain_id)
    × Agrees expected.expected_owner (f.lower r.owner)
    × Agrees expected.expected_asset_id (f.lower r.asset_id)
    × Agrees expected.expected_metadata_hash (f.lower r.metadata_hash)
    × Agrees expected.expected_code_hash (keccak256 r.code)

-- The assessment is made, and confirms.
abbrev pub Confirms : Result Assessment → Type 0
Confirms r = (a : Assessment) × (r ≡ ok a) × (a.verified ≡ true)

not_off : (b : Bool) → not b ≡ false → b ≡ true
not_off b h = ground arith

same_text : (s t : String) → not (str_eq s t) ≡ false → s ≡ t
same_text s t h = (eq_iff s t).0 (ground arith)

other_text : (s t : String) → s ≢ t → str_eq s t ≡ false
other_text s t other = elim (Bool-cases (str_eq s t)) [
  | inl e ↦ absurd (other ((eq_iff s t).0 e))
  | inr e ↦ e
]

differs_sound : (o : Option String) (actual : String) → differs o actual ≡ false → Agrees o actual
unfolding differs
differs_sound none actual h e same filled = cc
differs_sound (some x) actual h e same filled =
    let same' : x ≡ e = cc in
    let filled' : str_eq x "" ≡ false = rw same' (other_text e "" filled) in
    same_text actual x (rw filled' at h) ∙ same'

differs_complete :
    (o : Option String) (actual : String) → Agrees o actual → differs o actual ≡ false
unfolding differs
differs_complete none actual agrees = refl
differs_complete (some x) actual agrees = elim (Bool-cases (str_eq x "")) [
  | inl e ↦ rw e
  | inr e ↦
      let same = agrees x refl (λ empty. false≢true (sym e ∙ (eq_iff x "").1 empty)) in
      rw (e, (eq_iff actual x).1 same)
]

-- The list of the mismatches is empty only if each test is.
no_names :
    (a b c d e : Bool) (k l m n o : String)
    → is_empty (name_if a k ++ (name_if b l ++ (name_if c m ++ (name_if d n ++ name_if e o))))
      ≡ true
    → (a ≡ false) × (b ≡ false) × (c ≡ false) × (d ≡ false) × (e ≡ false)
no_names true b c d e k l m n o h = cc
no_names false true c d e k l m n o h = cc
no_names false false true d e k l m n o h = cc
no_names false false false true e k l m n o h = cc
no_names false false false false true k l m n o h = cc
no_names false false false false false k l m n o h = (refl, refl, refl, refl, refl)

same_number : (n m : ℕ) → (n == m) ≡ true → n ≡ m
same_number n m h = ground arith

number_same : (n m : ℕ) → n ≡ m → (n == m) ≡ true
number_same n m h = ground arith

status_known : (n : ℕ) → n < 4 → (s : String) × (get_elem? asset_status n ≡ some s)
status_known zero h = ("active", refl)
status_known (suc zero) h = ("suspended", refl)
status_known (suc (suc zero)) h = ("revoked", refl)
status_known (suc (suc (suc zero))) h = ("retired", refl)
status_known (suc (suc (suc (suc n)))) h = absurd (omega arith)

status_below : (n : ℕ) (s : String) → get_elem? asset_status n ≡ some s → n < 4
status_below zero s h = omega arith
status_below (suc zero) s h = omega arith
status_below (suc (suc zero)) s h = omega arith
status_below (suc (suc (suc zero))) s h = omega arith
status_below (suc (suc (suc (suc n)))) s h = cc

abbrev verified_of : Result Assessment → Bool
verified_of (ok a) = a.verified
verified_of (thrown e) = false

module _ (f : Formats) (keccak256 : String → String) (show : ℕ → String) where
  mismatches_sound :
      (expected : Expected) (r : Reading) (s : String)
      → is_empty
          (mismatches_of f keccak256 show expected r (evidence_of f keccak256 show expected r s))
        ≡ true
      → Matches f keccak256 expected r
  unfolding mismatches_of evidence_of
  mismatches_sound expected r s h =
      let (a, b, c, d, e) = no_names _ _ _ _ _ _ _ _ _ _ h in
      (
        same_number r.network_chain_id expected.chain_id (not_off _ a),
        differs_sound expected.expected_owner (f.lower r.owner) b,
        differs_sound expected.expected_asset_id (f.lower r.asset_id) c,
        differs_sound expected.expected_metadata_hash (f.lower r.metadata_hash) d,
        differs_sound expected.expected_code_hash (keccak256 r.code) e,
      )

  mismatches_complete :
      (expected : Expected) (r : Reading) (s : String)
      → Matches f keccak256 expected r
      → is_empty
          (mismatches_of f keccak256 show expected r (evidence_of f keccak256 show expected r s))
        ≡ true
  unfolding mismatches_of evidence_of
  mismatches_complete expected r s (a, b, c, d, e) = rw (
    number_same r.network_chain_id expected.chain_id a,
    differs_complete expected.expected_owner (f.lower r.owner) b,
    differs_complete expected.expected_asset_id (f.lower r.asset_id) c,
    differs_complete expected.expected_metadata_hash (f.lower r.metadata_hash) d,
    differs_complete expected.expected_code_hash (keccak256 r.code) e,
  )

  assess_sound :
      (expected : Expected) (r : Reading)
      → Confirms (assess_evidence f keccak256 show expected r)
      → IsReadable f r × Matches f keccak256 expected r
  unfolding assess_evidence assess_status
  assess_sound expected r (a, made, verified) = elim (Bool-cases (str_eq (f.lower r.code) "0x")) [
    | inl e ↦ cc (rw e at made)
    | inr coded ↦ elim (Option-cases (get_elem? asset_status r.status)) [
      | inl e ↦ cc (rw (coded, e) at made)
      | inr (s, e) ↦
          let made' = (rw (coded, e) at made) in
          let same : is_empty (
                mismatches_of f keccak256 show expected r
                  (evidence_of f keccak256 show expected r s))
              ≡ a.verified =
            ap verified_of made' in
          (
            (
              λ empty. false≢true (sym coded ∙ (eq_iff (f.lower r.code) "0x").1 empty),
              status_below r.status s e,
            ),
            mismatches_sound expected r s (same ∙ verified),
          )
    ]
  ]

  assess_complete :
      (expected : Expected) (r : Reading)
      → IsReadable f r × Matches f keccak256 expected r
      → Confirms (assess_evidence f keccak256 show expected r)
  unfolding assess_evidence assess_status
  assess_complete expected r ((coded, known), matches) =
      let (s, e) = status_known r.status known in
      let mismatches =
        mismatches_of f keccak256 show expected r (evidence_of f keccak256 show expected r s) in
      (
        record {
          verified = is_empty mismatches;
          mismatches = mismatches;
          evidence = evidence_of f keccak256 show expected r s;
        },
        rw (other_text (f.lower r.code) "0x" coded, e),
        mismatches_complete expected r s matches,
      )

  -- An assessment confirms exactly when there is code at the address, the status is one of the four, the
  -- chain is the expected one, and the owner, the asset's id, its metadata hash and the hash of the code
  -- are the expected ones wherever one is expected.
  pub assess_evidence-Confirms_iff :
      (expected : Expected) (r : Reading)
      → Confirms (assess_evidence f keccak256 show expected r)
        ↔ (IsReadable f r × Matches f keccak256 expected r)
  assess_evidence-Confirms_iff expected r = (assess_sound expected r, assess_complete expected r)
