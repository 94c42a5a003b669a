-- ===== src/AssetVerifier/Command.antt =====
-- `main` of the command: what it reads, prints and exits with.
use block_chain.Common.{ℕ, String, Bool, List, if◌then◌else◌}
use block_chain.Js.{Error, Result, ok, thrown, ◌>>=◌}
use block_chain.AssetVerifier.Arguments.{
  Expected, Parsed, asks_help, verifies, Formats, parse_verifier_args,
}
use block_chain.AssetVerifier.Evidence.{Reading, Assessment, assess_evidence}

-- The answers of the provider and of the contract behind it, each of which may fail. Of reads that are
-- made together the first in their order that fails is the one that counts.
pub record Chain : Type 0 where
  pub get_network : Result ℕ
  pub get_block_number : Result ℕ
  pub get_code : String → Result String
  pub owner_of : ℕ → Result String
  pub asset_id_by_token : ℕ → Result String
  pub asset_metadata_hash : ℕ → Result String
  pub asset_status : ℕ → Result ℕ
  pub identity_registry : String → Result (Bool × ℕ)

pub data Printed : Type 0 where
  usage : Printed
  result : Assessment → Printed
  unavailable : Error → Printed

pub record Exit : Type 0 where
  pub printed : Printed
  pub exit_code : ℕ

unfoldable pub read_chain : Expected → Chain → Result Reading
read_chain expected c = do
  network_chain_id ← c.get_network
  block_number ← c.get_block_number
  code ← c.get_code expected.contract_address
  owner ← c.owner_of expected.token_id
  asset_id ← c.asset_id_by_token expected.token_id
  metadata_hash ← c.asset_metadata_hash expected.token_id
  status ← c.asset_status expected.token_id
  identity ← c.identity_registry owner
  ok (record {
    network_chain_id = network_chain_id;
    code = code;
    owner = owner;
    asset_id = asset_id;
    metadata_hash = metadata_hash;
    status = status;
    is_active = identity.0;
    registered_at = identity.1;
    block_number = block_number;
  })

-- `connect` makes the provider of an RPC address.
module _ (f : Formats) (keccak256 : String → String) (show : ℕ → String)
    (connect : String → Chain) where
  unfoldable pub verify : Expected → Result Assessment
  unfolding read_chain
  verify expected = do
    reading ← read_chain expected (connect expected.rpc_url)
    assess_evidence f keccak256 show expected reading

  abbrev pub exit_of : Result Assessment → Exit
  exit_of (ok assessment) = record {
    printed = result assessment;
    exit_code = if assessment.verified then 0 else 3;
  }
  exit_of (thrown e) = record { printed = unavailable e; exit_code = 2 }

  unfoldable pub run_parsed : Result Parsed → Exit
  unfolding verify
  run_parsed (ok asks_help) = record { printed = usage; exit_code = 0 }
  run_parsed (ok (verifies expected)) = exit_of (verify expected)
  run_parsed (thrown e) = record { printed = unavailable e; exit_code = 2 }

  unfoldable pub verify_asset : List String → Exit
  unfolding run_parsed
  verify_asset argv = run_parsed (parse_verifier_args f argv)
