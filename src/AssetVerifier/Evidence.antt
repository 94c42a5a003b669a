-- ===== src/AssetVerifier/Evidence.antt =====
-- `assessEvidence`.
use Prim.Native.String as Text
use text.Mathlib.Text.{◌==◌ as str_eq}
use block_chain.Common.{
  ℕ, String, Bool, true, false, not, ◌&&◌, List, [], ◌∷◌, ◌++◌, Option, none, some, if◌then◌else◌,
  ◌==◌, get_elem?,
}
use block_chain.Js.{Result, ok, fail}
use block_chain.AssetVerifier.Arguments.{Expected, Formats}

abbrev pub asset_status : List String
asset_status = "active" ∷ "suspended" ∷ "revoked" ∷ "retired" ∷ []

-- What is read from the chain. A status is an integer of the contract's type uint8.
pub record Reading : Type 0 where
  pub network_chain_id : ℕ
  pub code : String
  pub owner : String
  pub asset_id : String
  pub metadata_hash : String
  pub status : ℕ
  pub is_active : Bool
  pub registered_at : ℕ
  pub block_number : ℕ

pub record Evidence : Type 0 where
  pub source : String
  pub chain_id : String
  pub block_number : String
  pub contract_address : String
  pub deployed_code_hash : String
  pub token_id : String
  pub owner : String
  pub asset_id : String
  pub metadata_hash : String
  pub asset_status : String
  pub owner_identity_active : Bool
  pub owner_identity_registered_at : String

pub record Assessment : Type 0 where
  pub verified : Bool
  pub mismatches : List String
  pub evidence : Evidence

-- `expected && actual !== expected`.
unfoldable pub differs : Option String → String → Bool
differs none actual = false
differs (some expected) actual = not (str_eq expected "") && not (str_eq actual expected)

abbrev pub name_if : Bool → String → List String
name_if true name = name ∷ []
name_if false name = []

abbrev pub is_empty : List String → Bool
is_empty [] = true
is_empty (s ∷ l) = false

-- `keccak256` is the library's, `show` is a number's text in decimal.
module _ (f : Formats) (keccak256 : String → String) (show : ℕ → String) where
  unfoldable pub evidence_of : Expected → Reading → String → Evidence
  evidence_of expected r status_name = record {
    source = "direct-rpc-contract-read";
    chain_id = show r.network_chain_id;
    block_number = show r.block_number;
    contract_address = f.lower expected.contract_address;
    deployed_code_hash = keccak256 r.code;
    token_id = show expected.token_id;
    owner = f.lower r.owner;
    asset_id = f.lower r.asset_id;
    metadata_hash = f.lower r.metadata_hash;
    asset_status = status_name;
    owner_identity_active = r.is_active;
    owner_identity_registered_at = show r.registered_at;
  }

  unfoldable pub mismatches_of : Expected → Reading → Evidence → List String
  unfolding differs
  mismatches_of expected r evidence =
      name_if (not (r.network_chain_id == expected.chain_id)) "chain_id"
      ++ (name_if (differs expected.expected_owner evidence.owner) "owner"
          ++ (name_if (differs expected.expected_asset_id evidence.asset_id) "asset_id"
              ++ (name_if (differs expected.expected_metadata_hash evidence.metadata_hash)
                    "metadata_hash"
                  ++ name_if (differs expected.expected_code_hash evidence.deployed_code_hash)
                      "deployed_code_hash")))

  unfoldable pub assess_status : Expected → Reading → Option String → Result Assessment
  unfolding evidence_of mismatches_of
  assess_status expected r none =
      fail (
        Text.◌++◌ "Unsupported asset status returned by contract: " (Text.◌++◌ (show r.status) "."))
  assess_status expected r (some status_name) =
      let evidence = evidence_of expected r status_name in
      let mismatches = mismatches_of expected r evidence in
      ok (record { verified = is_empty mismatches; mismatches = mismatches; evidence = evidence })

  unfoldable pub assess_evidence : Expected → Reading → Result Assessment
  unfolding assess_status
  assess_evidence expected r =
      if str_eq (f.lower r.code) "0x"
      then fail "No deployed bytecode exists at the supplied contract address."
      else assess_status expected r (get_elem? asset_status r.status)
