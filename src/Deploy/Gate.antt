-- ===== src/Deploy/Gate.antt =====
-- The checks of `main` before the deployment.
use block_chain.Common.{ℕ, String, List, [], ◌∷◌, none, some, ◌≡◌, refl, ap, ◌∙◌}
use block_chain.Js.{ok, returns, throws, Result-cases}
use block_chain.Js.Effects.{Run, ◌>>=◌, lift, modify}
use block_chain.Js.Effects.Keeps.{IsPreorder, Keeps, Keeps-lift-bind, Keeps-lift, Keeps-modify-bind}
use block_chain.Deploy.Environment.{Environment, selected_environment}
use block_chain.Deploy.Policy.{
  EnvironmentPolicy, Artifact, check_environment, check_chain, check_artifact,
}
use block_chain.Deploy.Script.{
  World, creates_network, deploys, Log, first_address, record_deployment, deploy_platform, main,
}
use block_chain.Deploy.Checked.{
  Allows, Approves, Deployable, check_artifact_sound, check_chain_sound, check_environment_sound,
  deployer_of, filled, unit,
}

abbrev pub SameDeployer : Log → Log → Type 0
SameDeployer l k = deployer_of k ≡ deployer_of l

order : IsPreorder SameDeployer
order = record { refl_R = λ l. refl; trans_R = λ l k m h g. g ∙ h }

record_deployment-SameDeployer :
    (w : World) (app_env : Environment) (policy : EnvironmentPolicy) (name : String) (chain_id : ℕ)
    (artifact : Artifact) (deployer : String)
    → Keeps SameDeployer (record_deployment w app_env policy name chain_id artifact deployer)
unfolding record_deployment
record_deployment-SameDeployer w app_env policy name chain_id artifact deployer =
    Keeps-lift-bind order _ (λ a. Keeps-lift-bind order _ (λ b. Keeps-lift-bind order _ (λ c.
      Keeps-lift-bind order _ (λ d. Keeps-lift-bind order _ (λ e. Keeps-lift-bind order _ (λ f.
        Keeps-lift-bind order _ (λ g. Keeps-lift-bind order _ (λ h.
          Keeps-modify-bind order (λ l. refl)
            (Keeps-lift-bind order _
              (λ made. Keeps-modify-bind order (λ l. refl) (Keeps-lift order _)))))))))))

pub first_address_sound :
    (signers : List String) (owner : String)
    → first_address signers ≡ ok owner
    → (rest : List String) × (signers ≡ owner ∷ rest)
unfolding first_address
first_address_sound [] owner h = cc
first_address_sound (address ∷ rest) owner h = (rest, cc)

-- The rest of the script once the deployment is on its way.
abbrev pub rest_of :
    World → Environment → EnvironmentPolicy → String → ℕ → Artifact → String → Run Log (Unit {0})
rest_of w app_env policy name chain_id b address =
    lift (w.deploy address) >>= λ sent. record_deployment w app_env policy name chain_id b address

pub rest_of-SameDeployer :
    (w : World) (app_env : Environment) (policy : EnvironmentPolicy) (name : String) (chain_id : ℕ)
    (b : Artifact) (address : String)
    → Keeps SameDeployer (rest_of w app_env policy name chain_id b address)
rest_of-SameDeployer w app_env policy name chain_id b address =
    Keeps-lift-bind order _
      (λ sent. record_deployment-SameDeployer w app_env policy name chain_id b address)

sent_sound :
    (w : World) (app_env : Environment) (policy : EnvironmentPolicy) (name : String) (chain_id : ℕ)
    (b : Artifact) (l : Log) (address owner : String)
    → deployer_of (rest_of w app_env policy name chain_id b address (deploys address ∷ l)).1
      ≡ some owner
    → address ≡ owner
sent_sound w app_env policy name chain_id b l address owner h =
    let kept = rest_of-SameDeployer w app_env policy name chain_id b address in
    let unchanged = kept.at (deploys address ∷ l) in cc

deploy_platform_sound :
    (w : World) (app_env : Environment) (policy : EnvironmentPolicy) (name : String) (chain_id : ℕ)
    (l : Log) (owner : String)
    → deployer_of l ≡ none
    → deployer_of (deploy_platform w app_env policy name chain_id l).1 ≡ some owner
    → Deployable w owner
unfolding deploy_platform ◌>>=◌ lift modify
deploy_platform_sound w app_env policy name chain_id l owner clean h =
    elim (Result-cases w.signers) [
      | throws e s ↦ cc (rw s at h)
      | returns signers s ↦ elim (Result-cases w.artifact_file) [
        | throws e r ↦ cc (rw (s, r) at h)
        | returns a r ↦ elim (Result-cases (check_artifact a)) [
          | throws e c ↦ cc (rw (s, r, c) at h)
          | returns b c ↦ elim (Result-cases w.contract_factory) [
            | throws e f ↦ cc (rw (s, r, c, f) at h)
            | returns made f ↦ elim (Result-cases (first_address signers)) [
              | throws e o ↦ cc (rw (s, r, c, f, o) at h)
              | returns address o ↦
                  let (rest, first) = first_address_sound signers address o in
                  let same : address ≡ owner =
                    sent_sound w app_env policy name chain_id b l address owner
                      (rw (s, r, c, f, o) at h) in
                  let (filled, coded) = check_artifact_sound a b c in
                  (
                    rest,
                    a,
                    f ∙ ap ok (unit made),
                    s ∙ ap ok (first ∙ ap (λ x. x ∷ rest) same),
                    r,
                    filled,
                    coded,
                  )
            ]
          ]
        ]
      ]
    ]

pub main_sound :
    (w : World) (owner : String)
    → deployer_of (main w []).1 ≡ some owner
    → (app_env : Environment) × (policy : EnvironmentPolicy) × Approves w app_env policy
      × Allows w policy
      × Deployable w owner
unfolding main ◌>>=◌ lift modify
main_sound w owner h = elim (Result-cases (selected_environment w.app_env)) [
  | throws e s ↦ cc (rw s at h)
  | returns app_env s ↦ elim (Result-cases w.policy_file) [
    | throws e f ↦ cc (rw (s, f) at h)
    | returns policies f ↦
        elim (Result-cases (check_environment app_env w.deployment_approved (policies app_env))) [
          | throws e c ↦ cc (rw (s, f, c) at h)
          | returns policy c ↦ elim (Result-cases w.create_network) [
            | throws e n ↦ cc (rw (s, f, c, n) at h)
            | returns name n ↦ elim (Result-cases w.chain_id) [
              | throws e i ↦ cc (rw (s, f, c, n, i) at h)
              | returns id i ↦ elim (Result-cases (check_chain w.digits app_env policy id)) [
                | throws e k ↦ cc (rw (s, f, c, n, i, k) at h)
                | returns chain_id k ↦
                    let (known, approval) =
                      check_environment_sound app_env w.deployment_approved (policies app_env)
                        policy c in
                    let (safe, listed) = check_chain_sound w.digits app_env policy id chain_id k in
                    let deployable =
                      deploy_platform_sound w app_env policy name chain_id (creates_network ∷ [])
                        owner refl (rw (s, f, c, n, i, k) at h) in
                    (
                      app_env,
                      policy,
                      (policies, s, f, known, approval),
                      (name, id, n, i, safe, listed),
                      deployable,
                    )
              ]
            ]
          ]
        ]
  ]
]
