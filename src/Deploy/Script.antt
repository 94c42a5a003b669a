-- ===== src/Deploy/Script.antt =====
-- `main`: what it does to the network and the disk, and where it stops.
use text.Mathlib.Text.{◌==◌ as str_eq}
use block_chain.Common.{ℕ, String, Bool, true, List, [], ◌∷◌, Option, none, some, if◌then◌else◌}
use block_chain.Js.{Value, Result, ok, thrown, fail}
use block_chain.Js.Effects.{Run, ◌>>=◌, ◌>>◌, lift, modify}
use block_chain.Deploy.Environment.{
  Environment, environment_text, selected_environment, source_commit, or_text,
}
use block_chain.Deploy.Policy.{
  EnvironmentPolicy, Artifact, check_environment, check_chain, check_artifact,
}

-- The process environment, the files that are read, and what each call outside the script comes to.
-- `policy_file` holds the policies by environment, in the shape that the script declares;
-- `make_folder` makes the folder of a path.
pub record World : Type 0 where
  pub app_env : Option String
  pub deployment_approved : Option String
  pub git_commit : Option String
  pub github_sha : Option String
  pub head_commit : Result String
  pub rpc_url : Option String
  pub hardhat_network : Option String
  pub deployer_custody : Option String
  pub manifest_path : Option String
  pub policy_file : Result (Environment → Option EnvironmentPolicy)
  pub create_network : Result String
  pub chain_id : Result ℕ
  pub signers : Result (List String)
  pub artifact_file : Result Artifact
  pub contract_factory : Result (Unit {0})
  pub deploy : String → Result (Unit {0})
  pub wait_for_deployment : Result (Unit {0})
  pub contract_address : Result String
  pub deployed_bytecode : Result String
  pub origin : String → Result String
  pub keccak256 : String → Result String
  pub abi_hash : Value → Result String
  pub now : String
  pub digits : ℕ → String
  pub default_path : Environment → String
  pub resolve : String → String
  pub make_folder : String → Result (Unit {0})
  pub write_file : String → Result (Unit {0})

pub record Manifest : Type 0 where
  pub schema_version : ℕ
  pub environment : String
  pub network_name : String
  pub chain_id : ℕ
  pub rpc_identity : String
  pub contract_name : String
  pub contract_address : String
  pub bytecode_hash : String
  pub abi_hash : String
  pub source_commit : String
  pub compiler : String
  pub optimizer_enabled : Bool
  pub optimizer_runs : ℕ
  pub evm_version : String
  pub deployer : String
  pub deployer_custody : String
  pub deployed_at : String

-- A deployment is sent with its owner; it and the disk's operations count from the attempt on.
pub data Action : Type 0 where
  creates_network : Action
  deploys : (owner : String) → Action
  makes_folder : (path : String) → Action
  writes : (path : String) → Manifest → Action

-- The actions so far, the newest first.
abbrev pub Log : Type 0
Log = List Action

abbrev pub perform : Action → Log → Log
perform a l = a ∷ l

abbrev pub or_nonempty : String → String → String
or_nonempty s default = if str_eq s "" then default else s

-- `rpcUrl ? new URL(rpcUrl).origin : "hardhat-local-provider"`.
unfoldable pub rpc_identity_of : (String → Result String) → Option String → Result String
rpc_identity_of origin none = ok "hardhat-local-provider"
rpc_identity_of origin (some url) =
    if str_eq url "" then ok "hardhat-local-provider" else origin url

-- `deployer.address`, of the first signer.
unfoldable pub first_address : List String → Result String
first_address [] = thrown (record { name = "TypeError"; message = "deployer is undefined" })
first_address (address ∷ rest) = ok address

unfoldable pub check_code : String → Result (Unit {0})
check_code code =
    if str_eq code "0x" then fail "Provider returned empty code for deployed contract" else ok tt

abbrev pub custody_of : EnvironmentPolicy → Option String → String
custody_of policy custody =
    if policy.allows_disposable_signer
    then "disposable-local-signer"
    else or_text custody "external-custody-attestation-required"

module _ (w : World) where
  -- The contract is deployed: the manifest is gathered and written.
  unfoldable pub record_deployment :
      Environment → EnvironmentPolicy → String → ℕ → Artifact → String → Run Log (Unit {0})
  unfolding rpc_identity_of check_code
  record_deployment app_env policy network_name chain_id artifact deployer = do
    waited ← lift w.wait_for_deployment
    contract_address ← lift w.contract_address
    code ← lift w.deployed_bytecode
    checked ← lift (check_code code)
    rpc_identity ← lift (rpc_identity_of w.origin w.rpc_url)
    bytecode_hash ← lift (w.keccak256 code)
    abi_hash ← lift (w.abi_hash artifact.abi)
    commit ← lift (source_commit w.git_commit w.github_sha w.head_commit)
    modify (perform (makes_folder (w.resolve (or_text w.manifest_path (w.default_path app_env)))))
    made ← lift (w.make_folder (w.resolve (or_text w.manifest_path (w.default_path app_env))))
    modify (
        perform (
          writes (w.resolve (or_text w.manifest_path (w.default_path app_env))) (record {
            schema_version = 1;
            environment = environment_text app_env;
            network_name =
                or_nonempty network_name
                  (or_nonempty (or_text w.hardhat_network "") "hardhat-local");
            chain_id = chain_id;
            rpc_identity = rpc_identity;
            contract_name = "SecureAssetPlatform";
            contract_address = contract_address;
            bytecode_hash = bytecode_hash;
            abi_hash = abi_hash;
            source_commit = commit;
            compiler = "0.8.24";
            optimizer_enabled = true;
            optimizer_runs = 200;
            evm_version = "cancun";
            deployer = deployer;
            deployer_custody = custody_of policy w.deployer_custody;
            deployed_at = w.now;
          })))
    lift (w.write_file (w.resolve (or_text w.manifest_path (w.default_path app_env))))

  -- The signer, the artifact and the deployment.
  unfoldable pub deploy_platform : Environment → EnvironmentPolicy → String → ℕ → Run Log (Unit {0})
  unfolding record_deployment
  deploy_platform app_env policy network_name chain_id = do
    signers ← lift w.signers
    read ← lift w.artifact_file
    artifact ← lift (check_artifact read)
    factory ← lift w.contract_factory
    deployer ← lift (first_address signers)
    modify (perform (deploys deployer))
    sent ← lift (w.deploy deployer)
    record_deployment app_env policy network_name chain_id artifact deployer

  -- `main`, as far as what it prints.
  unfoldable pub main : Run Log (Unit {0})
  unfolding deploy_platform
  main = do
    app_env ← lift (selected_environment w.app_env)
    policies ← lift w.policy_file
    policy ← lift (check_environment app_env w.deployment_approved (policies app_env))
    modify (perform creates_network)
    network_name ← lift w.create_network
    read_id ← lift w.chain_id
    chain_id ← lift (check_chain w.digits app_env policy read_id)
    deploy_platform app_env policy network_name chain_id
