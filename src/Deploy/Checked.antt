-- ===== src/Deploy/Checked.antt =====
-- What the script's checks come to when they pass.
use text.Mathlib.Text.{◌==◌ as str_eq}
use text.Mathlib.TextEquality.{eq_iff}
use block_chain.Common.{
  ℕ, String, Bool, true, false, not, ◌&&◌, List, [], ◌∷◌, Option, none, some, ◌≡◌, ◌≢◌, ◌≤◌, refl,
  sym, ap, ◌∙◌, Bool-cases, inl, inr, leb, leb→le, and-eq-true,
}
use mathlib.Core.Bool.{false≢true}
use block_chain.Js.{ok}
use block_chain.Deploy.Environment.{Environment, selected_environment}
use block_chain.Deploy.Policy.{
  EnvironmentPolicy, Artifact, check_environment, check_chain, check_artifact, is_approved,
  is_empty, includes_id, max_safe_integer,
}
use block_chain.Deploy.Script.{World, creates_network, deploys, makes_folder, writes, Log}

-- The owner that the newest deployment was sent with.
abbrev pub deployer_of : Log → Option String
deployer_of [] = none
deployer_of (deploys owner ∷ l) = some owner
deployer_of (creates_network ∷ l) = deployer_of l
deployer_of (makes_folder path ∷ l) = deployer_of l
deployer_of (writes path m ∷ l) = deployer_of l

-- The environment has a policy, and its approval if it requires one.
abbrev pub Approves : World → Environment → EnvironmentPolicy → Type 0
Approves w app_env policy =
    (policies : (Environment → Option EnvironmentPolicy)) × (selected_environment w.app_env
      ≡ ok app_env)
    × (w.policy_file ≡ ok policies)
    × (policies app_env ≡ some policy)
    × (policy.requires_explicit_approval ≡ true → w.deployment_approved ≡ some "true")

-- The network can be created, and its chain ID is a safe integer that the policy allows.
abbrev pub Allows : World → EnvironmentPolicy → Type 0
Allows w policy =
    (name : String) × (chain_id : ℕ) × (w.create_network ≡ ok name)
    × (w.chain_id ≡ ok chain_id)
    × (chain_id ≤ max_safe_integer)
    × (includes_id policy.allowed_chain_ids chain_id ≡ true)

-- The contract's factory is there, the owner is the first signer, and there is bytecode to deploy.
abbrev pub Deployable : World → String → Type 0
Deployable w owner =
    (rest : List String) × (artifact : Artifact) × (w.contract_factory ≡ ok tt)
    × (w.signers ≡ ok (owner ∷ rest))
    × (w.artifact_file ≡ ok artifact)
    × (artifact.bytecode ≢ "")
    × (artifact.bytecode ≢ "0x")

pub unit : (u : Unit {0}) → u ≡ tt
unit u = refl

pub filled : (x y : String) → str_eq x y ≡ false → x ≢ y
filled x y other = λ e. false≢true (sym other ∙ (eq_iff x y).1 e)

pub check_artifact_sound :
    (a b : Artifact) → check_artifact a ≡ ok b → (a.bytecode ≢ "") × (a.bytecode ≢ "0x")
unfolding check_artifact
check_artifact_sound a b h = elim (Bool-cases (str_eq a.bytecode "")) [
  | inl e ↦ cc (rw e at h)
  | inr d ↦ elim (Bool-cases (str_eq a.bytecode "0x")) [
    | inl e ↦ cc (rw (d, e) at h)
    | inr e ↦ (filled a.bytecode "" d, filled a.bytecode "0x" e)
  ]
]

pub check_chain_sound :
    (digits : ℕ → String) (app_env : Environment) (policy : EnvironmentPolicy) (n m : ℕ)
    → check_chain digits app_env policy n ≡ ok m
    → (n ≤ max_safe_integer) × (includes_id policy.allowed_chain_ids n ≡ true)
unfolding check_chain
check_chain_sound digits app_env policy n m h =
    elim (Bool-cases (leb n max_safe_integer && includes_id policy.allowed_chain_ids n)) [
      | inr e ↦ cc (rw e at h)
      | inl e ↦
          let (safe, listed) = and-eq-true (leb n max_safe_integer) _ e in
          (leb→le n max_safe_integer safe, listed)
    ]

approved_sound : (o : Option String) → is_approved o ≡ true → o ≡ some "true"
approved_sound none h = cc
approved_sound (some s) h = ap some ((eq_iff s "true").0 h)

and_not : (a b : Bool) → a ≡ true → b ≡ false → (a && not b) ≡ true
and_not a b h k = rw (h, k)

pub check_environment_sound :
    (app_env : Environment) (approved : Option String) (o : Option EnvironmentPolicy)
    (policy : EnvironmentPolicy)
    → check_environment app_env approved o ≡ ok policy
    → (o ≡ some policy) × (policy.requires_explicit_approval ≡ true → approved ≡ some "true")
unfolding check_environment
check_environment_sound app_env approved none policy h = cc
check_environment_sound app_env approved (some q) policy h =
    elim (Bool-cases (q.requires_explicit_approval && not (is_approved approved))) [
      | inl e ↦ cc (rw e at h)
      | inr ready ↦ elim (Bool-cases (is_empty q.allowed_chain_ids)) [
        | inl e ↦ cc (rw (ready, e) at h)
        | inr e ↦
            let same : q ≡ policy = cc (rw (ready, e) at h) in
            (
              ap some same,
              λ needs. elim (Bool-cases (is_approved approved)) [
                | inl given ↦ approved_sound approved given
                | inr missing ↦ absurd (
                    false≢true (
                      sym ready
                      ∙ and_not _ _ (ap (λ q. q.requires_explicit_approval) same ∙ needs) missing))
              ],
            )
      ]
    ]
