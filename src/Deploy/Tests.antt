-- ===== src/Deploy/Tests.antt =====
-- A deployment from a developer's machine, and one whose commit is refused.
use block_chain.Common.{String, true, false, [], ◌∷◌, Option, none, some, ◌≡◌, ◌↔◌, refl, All}
use block_chain.Js.{null, ok}
use block_chain.Js.Effects.{◌>>=◌, lift, modify}
use block_chain.Deploy.Environment.{
  Environment, local, find_environment, selected_environment, check_commit, source_commit,
  is_full_hash,
}
use block_chain.Deploy.Policy.{EnvironmentPolicy, check_environment, check_chain, check_artifact}
use block_chain.Deploy.Script.{
  World, creates_network, deploys, rpc_identity_of, first_address, check_code, record_deployment,
  deploy_platform, main,
}
use block_chain.Deploy.Checked.{deployer_of, Approves, Allows, Deployable}
use block_chain.Deploy.Complete.{deployer_of-main_iff}
use block_chain.Deploy.Recorded.{Recorded, main-Recorded}

abbrev example_policies : Environment → Option EnvironmentPolicy
example_policies local = some (record {
  allowed_chain_ids = 31337 ∷ [];
  requires_explicit_approval = false;
  allows_disposable_signer = true;
})
example_policies _ = none

abbrev example_world : String → World
example_world commit = record {
  app_env = none;
  deployment_approved = none;
  git_commit = some commit;
  github_sha = none;
  head_commit = ok "";
  rpc_url = none;
  hardhat_network = none;
  deployer_custody = none;
  manifest_path = none;
  policy_file = ok example_policies;
  create_network = ok "hardhat";
  chain_id = ok 31337;
  signers = ok ("0xsigner" ∷ []);
  artifact_file = ok (record { abi = null; bytecode = "0x6080" });
  contract_factory = ok tt;
  deploy = λ owner. ok tt;
  wait_for_deployment = ok tt;
  contract_address = ok "0xcontract";
  deployed_bytecode = ok "0x6080";
  origin = λ url. ok url;
  keccak256 = λ code. ok "0xhash";
  abi_hash = λ abi. ok "0xabi";
  now = "2024-01-01T00:00:00.000Z";
  digits = λ n. "31337";
  default_path = λ e. "deployments/local.json";
  resolve = λ path. path;
  make_folder = λ path. ok tt;
  write_file = λ path. ok tt;
}

abbrev full_commit : String
full_commit = "0123456789abcdef0123456789abcdef01234567"

-- A commit that is refused stops the script after the contract is deployed, and before anything of it
-- is written down.
refused_commit : (main (example_world "main") []).1 ≡ deploys "0xsigner" ∷ creates_network ∷ []
unfolding main selected_environment find_environment check_environment check_chain check_artifact
    first_address deploy_platform record_deployment check_code rpc_identity_of source_commit
    check_commit is_full_hash ◌>>=◌ lift modify
refused_commit = refl

deployer_of-main_iff_example :
    (deployer_of (main (example_world full_commit) []).1 ≡ some "0xsigner") ↔ (
      (app_env : Environment) × (policy : EnvironmentPolicy) × Approves
        (example_world full_commit)
        app_env
        policy
      × Allows (example_world full_commit) policy
      × Deployable (example_world full_commit) "0xsigner")
deployer_of-main_iff_example = deployer_of-main_iff (example_world full_commit) "0xsigner"

main-Recorded_example :
    All (Recorded (example_world full_commit)) (main (example_world full_commit) []).1
main-Recorded_example = main-Recorded (example_world full_commit)
