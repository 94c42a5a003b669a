-- ===== src/Deploy/Policy.antt =====
-- The deployment policy, and the checks of `main` that stand before the deployment.
use Prim.Native.String as Text
use text.Mathlib.Text.{◌==◌ as str_eq}
use block_chain.Common.{
  ℕ, String, Bool, true, false, not, ◌&&◌, List, [], ◌∷◌, Option, none, some, if◌then◌else◌, leb,
  ◌==◌,
}
use block_chain.Js.{Value, Result, ok, fail}
use block_chain.Deploy.Environment.{Environment, environment_text}

pub record EnvironmentPolicy : Type 0 where
  pub allowed_chain_ids : List ℕ
  pub requires_explicit_approval : Bool
  pub allows_disposable_signer : Bool

pub record Artifact : Type 0 where
  pub abi : Value
  pub bytecode : String

-- `Number.MAX_SAFE_INTEGER`.
abbrev pub max_safe_integer : ℕ
max_safe_integer = 9007199254740991

-- `.includes(chainId)`.
abbrev pub includes_id : List ℕ → ℕ → Bool
includes_id [] chain_id = false
includes_id (n ∷ ns) chain_id = if n == chain_id then true else includes_id ns chain_id

abbrev pub is_approved : Option String → Bool
is_approved none = false
is_approved (some s) = str_eq s "true"

abbrev pub is_empty : List ℕ → Bool
is_empty [] = true
is_empty (n ∷ ns) = false

unfoldable pub check_environment :
    Environment → Option String → Option EnvironmentPolicy → Result EnvironmentPolicy
check_environment app_env approved none =
    fail (Text.◌++◌ "No deployment policy for " (environment_text app_env))
check_environment app_env approved (some policy) =
    if policy.requires_explicit_approval && not (is_approved approved)
    then fail (
        Text.◌++◌ "Deployment to " (
          Text.◌++◌ (environment_text app_env)
            " requires DEPLOYMENT_APPROVED=true and external operator evidence"))
    else if is_empty policy.allowed_chain_ids
    then fail (
        Text.◌++◌ "No network is approved for "
          (Text.◌++◌ (environment_text app_env) "; record the network decision before deploying"))
    else ok policy

-- A chain ID above the safe integers is one after its conversion too. `digits` writes a number.
unfoldable pub check_chain : (digits : ℕ → String) → Environment → EnvironmentPolicy → ℕ → Result ℕ
check_chain digits app_env policy chain_id =
    if leb chain_id max_safe_integer && includes_id policy.allowed_chain_ids chain_id
    then ok chain_id
    else fail (
        Text.◌++◌ "Chain ID " (
          Text.◌++◌ (digits chain_id)
            (Text.◌++◌ " is not allowed for APP_ENV=" (environment_text app_env))))

unfoldable pub check_artifact : Artifact → Result Artifact
check_artifact artifact =
    if str_eq artifact.bytecode ""
    then fail "Deployment artifact has empty bytecode"
    else if str_eq artifact.bytecode "0x"
    then fail "Deployment artifact has empty bytecode"
    else ok artifact
