-- ===== src/Deploy/Recorded.antt =====
-- The manifest that `recordDeployment` writes, beside the network and the settings.
use text.Mathlib.Text.{◌==◌ as str_eq}
use text.Mathlib.TextEquality.{eq_iff}
use block_chain.Common.{
  ℕ, String, ◌&&◌, List, [], ◌∷◌, ap, ◌≡◌, ◌≢◌, refl, sym, ◌∙◌, All, Bool-cases, inl, inr, leb,
}
use mathlib.Core.Bool.{false≢true}
use block_chain.Js.{ok}
use block_chain.Js.Effects.Keeps.{
  IsPreorder, Preserves, Preserves-IsPreorder, Keeps, Keeps-lift-known, Keeps-lift,
  Keeps-modify-bind,
}
use block_chain.Deploy.Environment.{Environment, environment_text, selected_environment}
use block_chain.Deploy.Policy.{
  EnvironmentPolicy, Artifact, check_chain, includes_id, max_safe_integer,
}
use block_chain.Deploy.Told.{
  IsNamed, IsFullHash, IsCommitOf, selected_environment-IsNamed, source_commit_sound,
}
use block_chain.Deploy.Gate.{first_address_sound}
use block_chain.Deploy.Script.{
  World, Manifest, Action, writes, Log, check_code, record_deployment, deploy_platform, main,
}

-- The contract's address and code are the network's, the code is not empty, and the commit is the one
-- of the settings or of git, and a full hash.
abbrev pub TellsDeployment : World → Manifest → Type 0
TellsDeployment w m =
    (w.contract_address ≡ ok m.contract_address)
    × ((code : String) × (w.deployed_bytecode ≡ ok code)
        × (code ≢ "0x")
        × (w.keccak256 code ≡ ok m.bytecode_hash))
    × IsCommitOf w.git_commit w.github_sha w.head_commit m.source_commit
    × IsFullHash m.source_commit

-- The environment is one of the six and the one that was set, or "local" if none was; the chain ID is the
-- network's, and the deployer its first signer.
abbrev pub TellsPlace : World → String → ℕ → String → Type 0
TellsPlace w environment chain_id deployer =
    ((app_env : Environment) × (environment ≡ environment_text app_env))
    × IsNamed w.app_env environment
    × (w.chain_id ≡ ok chain_id)
    × ((rest : List String) × (w.signers ≡ ok (deployer ∷ rest)))

abbrev pub Recorded : World → Action → Type 0
Recorded w (writes path m) = TellsDeployment w m × TellsPlace w m.environment m.chain_id m.deployer
Recorded w _ = Unit

abbrev AllRecorded : World → Log → Type 0
AllRecorded w l = All (Recorded w) l

order : (w : World) → IsPreorder (Preserves (AllRecorded w))
order w = Preserves-IsPreorder (AllRecorded w)

check_code_sound : (code : String) (u : Unit {0}) → check_code code ≡ ok u → code ≢ "0x"
unfolding check_code
check_code_sound code u h = elim (Bool-cases (str_eq code "0x")) [
  | inl e ↦ cc (rw e at h)
  | inr e ↦ λ same. false≢true (sym e ∙ (eq_iff code "0x").1 same)
]

check_chain_same :
    (digits : ℕ → String) (app_env : Environment) (policy : EnvironmentPolicy) (n m : ℕ)
    → check_chain digits app_env policy n ≡ ok m
    → ok n ≡ ok m
unfolding check_chain
check_chain_same digits app_env policy n m h =
    elim (Bool-cases (leb n max_safe_integer && includes_id policy.allowed_chain_ids n)) [
      | inl e ↦ (rw e at h)
      | inr e ↦ cc (rw e at h)
    ]

module _ (w : World) where
  record_deployment-AllRecorded :
      (app_env : Environment) (policy : EnvironmentPolicy) (name : String) (chain_id : ℕ)
      (artifact : Artifact) (deployer : String)
      → TellsPlace w (environment_text app_env) chain_id deployer
      → Keeps
          (Preserves (AllRecorded w))
          (record_deployment w app_env policy name chain_id artifact deployer)
  unfolding record_deployment
  record_deployment-AllRecorded app_env policy name chain_id artifact deployer place =
      Keeps-lift-known (order w) _ (λ a waited. Keeps-lift-known (order w) _ (λ address at_address.
        Keeps-lift-known (order w) _ (λ code at_code. Keeps-lift-known (order w) _ (λ u coded.
          Keeps-lift-known (order w) _ (λ rpc at_rpc. Keeps-lift-known (order w) _ (λ hash hashed.
            Keeps-lift-known (order w) _ (λ abi at_abi.
              Keeps-lift-known (order w) _ (λ commit at_commit.
                Keeps-modify-bind (order w) (λ l all. (tt, all))
                  (Keeps-lift-known (order w) _ (λ b made.
                    Keeps-modify-bind (order w)
                      (λ l all. (
                        (
                          (
                            at_address,
                            (code, at_code, check_code_sound code u coded, hashed),
                            (source_commit_sound w.git_commit w.github_sha w.head_commit commit
                                at_commit).0,
                            (source_commit_sound w.git_commit w.github_sha w.head_commit commit
                                at_commit).1,
                          ),
                          place,
                        ),
                        all,
                      ))
                      (Keeps-lift (order w) _)))))))))))

  deploy_platform-AllRecorded :
      (app_env : Environment) (policy : EnvironmentPolicy) (name : String) (chain_id : ℕ)
      → selected_environment w.app_env ≡ ok app_env
      → w.chain_id ≡ ok chain_id
      → Keeps (Preserves (AllRecorded w)) (deploy_platform w app_env policy name chain_id)
  unfolding deploy_platform
  deploy_platform-AllRecorded app_env policy name chain_id at_env at_id =
      Keeps-lift-known (order w) _ (λ signers at_signers. Keeps-lift-known (order w) _ (λ a r.
        Keeps-lift-known (order w) _ (λ b c. Keeps-lift-known (order w) _ (λ u f.
          Keeps-lift-known (order w) _ (λ deployer first.
            Keeps-modify-bind (order w) (λ l all. (tt, all))
              (Keeps-lift-known (order w) _ (λ v sent.
                record_deployment-AllRecorded app_env policy name chain_id b deployer (
                  (app_env, refl),
                  selected_environment-IsNamed w.app_env app_env at_env,
                  at_id,
                  (
                    (first_address_sound signers deployer first).0,
                    at_signers ∙ ap ok (first_address_sound signers deployer first).1,
                  ),
                ))))))))

  -- Each manifest that the script writes tells the environment that was set ("local" if none was), which is
  -- one of the six, the network's chain ID, the first of the network's signers as the deployer, the
  -- contract's address, the hash of its code, which is not empty, and the commit that was set, or that the
  -- workflow runs on, or that git tells (trimmed), the first of these there is, which is 40 to 64
  -- hexadecimal digits.
  pub main-Recorded : All (Recorded w) (main w []).1
  unfolding main
  main-Recorded =
      (Keeps-lift-known (order w) _ (λ app_env at_env. Keeps-lift-known (order w) _ (λ policies f.
          Keeps-lift-known (order w) _ (λ policy c.
            Keeps-modify-bind (order w) (λ l all. (tt, all))
              (Keeps-lift-known (order w) _ (λ name n. Keeps-lift-known (order w) _ (λ id at_id.
                Keeps-lift-known (order w) _ (λ chain_id checked.
                  deploy_platform-AllRecorded app_env policy name chain_id at_env (
                    at_id ∙ check_chain_same w.digits app_env policy id chain_id checked))))))))).at
        [] tt
