-- ===== src/AssetVerifier/Tests.antt =====
-- An asset that is checked for its owner, on a chain that answers.
use block_chain.Common.{All, ℕ, String, true, List, [], ◌∷◌, none, some, ◌≡◌, ◌↔◌, ◌⊎◌, refl, ◌==◌}
use block_chain.Js.{ok}
use block_chain.AssetVerifier.Arguments.{
  Options, options, Expected, asks_help, verifies, Formats, scan_args, parse_verifier_args,
}
use block_chain.AssetVerifier.Evidence.{Reading, assess_evidence}
use block_chain.AssetVerifier.Command.{Chain, verify_asset, run_parsed, verify, read_chain}
use block_chain.AssetVerifier.Printed.{arguments_of, IsOption, IsDistinct}
use block_chain.AssetVerifier.Accepted.{scan_args-options_iff}
use block_chain.AssetVerifier.Expectations.{
  Confirms, IsReadable, Matches, assess_evidence-Confirms_iff,
}
use block_chain.AssetVerifier.ExitCode.{ConfirmedOnChain, verify_asset-exit_code-eq-zero_iff}

abbrev formats : Formats
formats = record { is_address = λ s. true; is_hex_string = λ s n. n == 32; lower = λ s. s }

abbrev hash : String → String
hash code = "0xhash"

abbrev show : ℕ → String
show n = "1"

abbrev chain : Chain
chain = record {
  get_network = ok 31337;
  get_block_number = ok 7;
  get_code = λ address. ok "0x6080";
  owner_of = λ token. ok "0xowner";
  asset_id_by_token = λ token. ok "0xasset";
  asset_metadata_hash = λ token. ok "0xmetadata";
  asset_status = λ token. ok 0;
  identity_registry = λ owner. ok (true, 5);
}

abbrev given : String → Options
given owner =
    ("rpc-url", "http://127.0.0.1:8545")
    ∷ ("chain-id", "31337")
    ∷ ("contract-address", "0xcontract")
    ∷ ("token-id", "1")
    ∷ ("expected-owner", owner)
    ∷ []

abbrev exit_with : List String → ℕ
exit_with argv = (verify_asset formats hash show (λ url. chain) argv).exit_code

confirmed : exit_with (arguments_of (given "0xowner")) ≡ 0
unfolding verify_asset parse_verifier_args run_parsed verify read_chain assess_evidence
confirmed = refl

-- An owner other than the expected one.
refuted : exit_with (arguments_of (given "0xother")) ≡ 3
unfolding verify_asset parse_verifier_args run_parsed verify read_chain assess_evidence
refuted = refl

-- A misspelled option is accepted, and what it expects is not checked.
misspelled : exit_with ("--expected-ownr" ∷ "0xother" ∷ arguments_of (given "0xowner")) ≡ 0
unfolding verify_asset parse_verifier_args run_parsed verify read_chain assess_evidence
misspelled = refl

abbrev two_options : Options
two_options = ("chain-id", "1") ∷ ("token-id", "2") ∷ []

scan_args-options_iff_example :
    (scan_args ("--chain-id" ∷ "1" ∷ "--token-id" ∷ "2" ∷ []) [] ≡ ok (options two_options)) ↔ (
      (("--chain-id" ∷ "1" ∷ "--token-id" ∷ "2" ∷ []) ≡ arguments_of two_options)
      × All IsOption two_options
      × IsDistinct two_options)
scan_args-options_iff_example =
    scan_args-options_iff ("--chain-id" ∷ "1" ∷ "--token-id" ∷ "2" ∷ []) two_options

abbrev expected : Expected
expected = record {
  rpc_url = "http://127.0.0.1:8545";
  chain_id = 31337;
  contract_address = "0xcontract";
  token_id = 1;
  expected_owner = some "0xowner";
  expected_asset_id = none;
  expected_metadata_hash = none;
  expected_code_hash = none;
}

abbrev reading : Reading
reading = record {
  network_chain_id = 31337;
  code = "0x6080";
  owner = "0xowner";
  asset_id = "0xasset";
  metadata_hash = "0xmetadata";
  status = 0;
  is_active = true;
  registered_at = 5;
  block_number = 7;
}

assess_evidence-Confirms_iff_example :
    Confirms (assess_evidence formats hash show expected reading)
    ↔ (IsReadable formats reading × Matches formats hash expected reading)
assess_evidence-Confirms_iff_example =
    assess_evidence-Confirms_iff formats hash show expected reading

verify_asset-exit_code-eq-zero_iff_example :
    ((verify_asset formats hash show (λ url. chain) (arguments_of (given "0xowner"))).exit_code ≡ 0)
    ↔ ((parse_verifier_args formats (arguments_of (given "0xowner")) ≡ ok asks_help)
        ⊎ ((e : Expected) × (parse_verifier_args formats (arguments_of (given "0xowner"))
              ≡ ok (verifies e))
            × ConfirmedOnChain formats hash show (λ url. chain) e))
verify_asset-exit_code-eq-zero_iff_example =
    verify_asset-exit_code-eq-zero_iff formats hash show (λ url. chain)
      (arguments_of (given "0xowner"))
