-- ===== src/Deploy/Complete.antt =====
-- `main` as far as the deployment, from its checks on.
use text.Mathlib.Text.{◌==◌ as str_eq}
use text.Mathlib.TextEquality.{eq_iff}
use block_chain.Common.{
  ℕ, String, Bool, true, false, not, ◌&&◌, List, [], ◌∷◌, Option, some, ◌≡◌, ◌≢◌, ◌≤◌, refl, ◌↔◌,
  arith, Bool-cases, inl, inr, leb,
}
use block_chain.Js.{ok}
use block_chain.Js.Effects.{◌>>=◌, lift, modify}
use block_chain.Deploy.Environment.{Environment}
use block_chain.Deploy.Policy.{
  EnvironmentPolicy, Artifact, check_environment, check_chain, check_artifact, is_approved,
  is_empty, includes_id, max_safe_integer,
}
use block_chain.Deploy.Script.{
  World, creates_network, deploys, Log, first_address, deploy_platform, main,
}
use block_chain.Deploy.Gate.{main_sound, rest_of-SameDeployer}
use block_chain.Deploy.Checked.{deployer_of, Approves, Allows, Deployable}

unequal : (x y : String) → x ≢ y → str_eq x y ≡ false
unequal x y other = elim (Bool-cases (str_eq x y)) [
  | inl e ↦ absurd (other ((eq_iff x y).0 e))
  | inr e ↦ e
]

check_artifact_complete :
    (a : Artifact) → a.bytecode ≢ "" → a.bytecode ≢ "0x" → check_artifact a ≡ ok a
unfolding check_artifact
check_artifact_complete a h k = rw (unequal a.bytecode "" h, unequal a.bytecode "0x" k)

check_chain_complete :
    (digits : ℕ → String) (app_env : Environment) (policy : EnvironmentPolicy) (n : ℕ)
    → n ≤ max_safe_integer
    → includes_id policy.allowed_chain_ids n ≡ true
    → check_chain digits app_env policy n ≡ ok n
unfolding check_chain
check_chain_complete digits app_env policy n h k =
    let safe : leb n max_safe_integer ≡ true = ground arith in rw (safe, k)

not_empty : (ids : List ℕ) (n : ℕ) → includes_id ids n ≡ true → is_empty ids ≡ false
not_empty [] n h = cc
not_empty (m ∷ ids) n h = refl

approval_passes :
    (needs : Bool) (approved : Option String)
    → (needs ≡ true → approved ≡ some "true")
    → (needs && not (is_approved approved)) ≡ false
approval_passes false approved h = refl
approval_passes true approved h = rw (h refl)

check_environment_complete :
    (app_env : Environment) (approved : Option String) (policy : EnvironmentPolicy) (n : ℕ)
    → (policy.requires_explicit_approval ≡ true → approved ≡ some "true")
    → includes_id policy.allowed_chain_ids n ≡ true
    → check_environment app_env approved (some policy) ≡ ok policy
unfolding check_environment
check_environment_complete app_env approved policy n h k = rw (
  approval_passes policy.requires_explicit_approval approved h,
  not_empty policy.allowed_chain_ids n k,
)

deploy_platform_complete :
    (w : World) (app_env : Environment) (policy : EnvironmentPolicy) (name : String) (chain_id : ℕ)
    (l : Log) (owner : String)
    → Deployable w owner
    → deployer_of (deploy_platform w app_env policy name chain_id l).1 ≡ some owner
unfolding deploy_platform first_address ◌>>=◌ lift modify
deploy_platform_complete w app_env policy name chain_id l owner (rest, a, made, s, r, h, k) =
    let unchanged =
      (rest_of-SameDeployer w app_env policy name chain_id a owner).at (deploys owner ∷ l) in
    rw (s, r, check_artifact_complete a h k, made) unchanged

main_complete :
    (w : World) (owner : String) (app_env : Environment) (policy : EnvironmentPolicy)
    → Approves w app_env policy
    → Allows w policy
    → Deployable w owner
    → deployer_of (main w []).1 ≡ some owner
unfolding main ◌>>=◌ lift modify
main_complete w owner app_env policy (policies, s, f, known, approval)
      (name, id, n, i, safe, listed) d =
    let checked : check_environment app_env w.deployment_approved (policies app_env) ≡ ok policy =
      rw known
        (check_environment_complete app_env w.deployment_approved policy id approval listed) in
    rw (s, f, checked, n, i, check_chain_complete w.digits app_env policy id safe listed)
      (deploy_platform_complete w app_env policy name id (creates_network ∷ []) owner d)

-- The script sends a deployment for an owner exactly when the selected environment has a policy,
-- which was approved if it must be; the network can be created, and its chain ID is a safe integer
-- that this policy allows; the contract's factory is there, the owner is the first signer, and the
-- artifact has bytecode.
pub deployer_of-main_iff :
    (w : World) (owner : String)
    → (deployer_of (main w []).1 ≡ some owner) ↔ (
        (app_env : Environment) × (policy : EnvironmentPolicy) × Approves w app_env policy
        × Allows w policy
        × Deployable w owner)
deployer_of-main_iff w owner = (
  main_sound w owner,
  λ (app_env, policy, approved, allowed, deployable).
      main_complete w owner app_env policy approved allowed deployable,
)
