-- ===== src/Deploy/Told.antt =====
-- `selectedEnvironment` and `sourceCommit`, beside what a manifest is to tell of them.
use Prim.Native.Char.{code}
use Prim.Native.String as Text
use text.Mathlib.Text.{◌==◌ as str_eq}
use text.Mathlib.TextEquality.{eq_iff}
use mathlib.Core.Path.{subst}
use block_chain.Common.{
  ℕ, ◌≤◌, String, true, List, [], ◌∷◌, Option, none, some, ◌≡◌, ◌⊎◌, inl, inr, refl, sym, ap, ◌∙◌,
  arith, leb, leb→le, Bool-cases, and-eq-true,
}
use block_chain.Js.{Result, ok, thrown}
use block_chain.AuditApi.{is_hex_digit, trim}
use block_chain.Deploy.Environment.{
  Environment, environments, environment_text, find_environment, selected_environment, all_hex,
  is_full_hash, check_commit, source_commit,
}

-- The name that was set, or else "local".
abbrev pub IsNamed : Option String → String → Type 0
IsNamed none name = name ≡ "local"
IsNamed (some t) name = name ≡ t

-- "0" to "9", "A" to "F" or "a" to "f".
abbrev pub IsHexCode : ℕ → Type 0
IsHexCode n = ((48 ≤ n) × (n ≤ 57)) ⊎ ((65 ≤ n) × (n ≤ 70)) ⊎ ((97 ≤ n) × (n ≤ 102))

abbrev pub HasHexCodes : String → Type 0
HasHexCodes Text.[] = Unit
HasHexCodes (Text.◌∷◌ c s) = IsHexCode (code c) × HasHexCodes s

abbrev pub IsFullHash : String → Type 0
IsFullHash s = (40 ≤ Text.count s) × (Text.count s ≤ 64) × HasHexCodes s

-- The commit that was set, or else the one that the workflow runs on, or else what git tells, trimmed.
abbrev pub IsCommitOf : Option String → Option String → Result String → String → Type 0
IsCommitOf (some t) github_sha head commit = commit ≡ t
IsCommitOf none (some t) head commit = commit ≡ t
IsCommitOf none none head commit = (t : String) × (head ≡ ok t) × (commit ≡ trim t)

find_environment_sound :
    (es : List Environment) (name : String) (e : Environment)
    → find_environment es name ≡ ok e
    → environment_text e ≡ name
unfolding find_environment
find_environment_sound [] name e h = cc
find_environment_sound (x ∷ es) name e h = elim (Bool-cases (str_eq (environment_text x) name)) [
  | inl same ↦
      let found : ok x ≡ ok e = (rw same at h) in
      let is_x : x ≡ e = cc in
      sym (ap environment_text is_x) ∙ (eq_iff (environment_text x) name).0 same
  | inr other ↦ find_environment_sound es name e (rw other at h)
]

pub selected_environment-IsNamed :
    (app_env : Option String) (e : Environment)
    → selected_environment app_env ≡ ok e
    → IsNamed app_env (environment_text e)
unfolding selected_environment
selected_environment-IsNamed none e h = find_environment_sound environments "local" e h
selected_environment-IsNamed (some t) e h = find_environment_sound environments t e h

is_hex_digit_sound : (n : ℕ) → is_hex_digit n ≡ true → IsHexCode n
is_hex_digit_sound n h = ground arith

all_hex_sound : (s : String) → all_hex s ≡ true → HasHexCodes s
all_hex_sound Text.[] h = tt
all_hex_sound (Text.◌∷◌ c s) h =
    let (here, later) = and-eq-true (is_hex_digit (code c)) (all_hex s) h in
    (is_hex_digit_sound (code c) here, all_hex_sound s later)

is_full_hash_sound : (s : String) → is_full_hash s ≡ true → IsFullHash s
unfolding is_full_hash
is_full_hash_sound s h =
    let (low, rest) = and-eq-true (leb 40 (Text.count s)) _ h in
    let (high, hex) = and-eq-true (leb (Text.count s) 64) (all_hex s) rest in
    (leb→le _ _ low, leb→le _ _ high, all_hex_sound s hex)

check_commit_sound :
    (t commit : String) → check_commit t ≡ ok commit → (commit ≡ t) × IsFullHash commit
unfolding check_commit
check_commit_sound t commit h = elim (Bool-cases (is_full_hash t)) [
  | inr bad ↦ cc (rw bad at h)
  | inl full ↦
      let kept : ok t ≡ ok commit = (rw full at h) in
      let same : t ≡ commit = cc in (sym same, subst IsFullHash same (is_full_hash_sound t full))
]

pub source_commit_sound :
    (git_commit github_sha : Option String) (head : Result String) (commit : String)
    → source_commit git_commit github_sha head ≡ ok commit
    → IsCommitOf git_commit github_sha head commit × IsFullHash commit
unfolding source_commit
source_commit_sound (some t) github_sha head commit h = check_commit_sound t commit h
source_commit_sound none (some t) head commit h = check_commit_sound t commit h
source_commit_sound none none (thrown e) commit h = cc
source_commit_sound none none (ok t) commit h =
    let (same, full) = check_commit_sound (trim t) commit h in ((t, refl, same), full)
