-- ===== src/AssetVerifier/Arguments.antt =====
-- `parseVerifierArgs`.
use Prim.Native.Char.{code}
use Prim.Native.String as Text
use text.Mathlib.Text.{◌==◌ as str_eq, starts_with}
use block_chain.Common.{
  ℕ, ◌+◌, ◌-◌, ◌*◌, String, Bool, true, false, not, ◌&&◌, ◌||◌, List, [], ◌∷◌, ◌++◌, Option, none,
  some, if◌then◌else◌, leb, ltb,
}
use block_chain.Js.{Result, ok, fail, ◌>>=◌, drop_text}

abbrev pub Options : Type 0
Options = List (String × String)

-- `values[key]`, of the options themselves.
abbrev pub lookup_option : String → Options → Option String
lookup_option key [] = none
lookup_option key ((k, v) ∷ rest) = if str_eq k key then some v else lookup_option key rest

-- The names that an empty object has by inheritance.
abbrev pub inherited : List String
inherited =
    "constructor" ∷ "__proto__" ∷ "toString" ∷ "toLocaleString" ∷ "valueOf" ∷ "hasOwnProperty"
    ∷ "isPrototypeOf" ∷ "propertyIsEnumerable" ∷ "__defineGetter__" ∷ "__defineSetter__"
    ∷ "__lookupGetter__" ∷ "__lookupSetter__" ∷ []

abbrev pub is_one_of : List String → String → Bool
is_one_of [] s = false
is_one_of (t ∷ ts) s = str_eq t s || is_one_of ts s

abbrev pub is_given : Option String → Bool
is_given none = false
is_given (some v) = true

-- `values[key] !== undefined`.
unfoldable pub is_set : String → Options → Bool
is_set key values = is_one_of inherited key || is_given (lookup_option key values)

-- What the loop over the arguments ends with.
pub data Scan : Type 0 where
  help : Scan
  options : Options → Scan

-- `!value || value.startsWith("--")`.
unfoldable pub is_missing : String → Bool
is_missing value = str_eq value "" || starts_with value "--"

unfoldable pub scan_args : List String → Options → Result Scan
unfolding is_set is_missing
scan_args [] values = ok (options values)
scan_args (flag ∷ []) values =
    if not (starts_with flag "--")
    then fail (Text.◌++◌ "Unexpected positional argument: " flag)
    else if str_eq flag "--help"
    then ok help
    else fail (Text.◌++◌ "Missing value for " flag)
scan_args (flag ∷ value ∷ rest) values =
    let further = scan_args rest (values ++ (drop_text 2 flag, value) ∷ []) in
    if not (starts_with flag "--")
    then fail (Text.◌++◌ "Unexpected positional argument: " flag)
    else if str_eq flag "--help"
    then ok help
    else if is_missing value
    then fail (Text.◌++◌ "Missing value for " flag)
    else if is_set (drop_text 2 flag) values
    then fail (Text.◌++◌ "Duplicate option: " flag)
    else further

-- `/^\d+$/`, and `BigInt(text)` of such a text.
abbrev pub is_digit : ℕ → Bool
is_digit c = leb b'0' c && leb c b'9'

abbrev pub all_digits : String → Bool
all_digits Text.[] = true
all_digits (Text.◌∷◌ c s) = is_digit (code c) && all_digits s

unfoldable pub is_decimal : String → Bool
is_decimal s = not (str_eq s "") && all_digits s

unfoldable pub decimal_from : ℕ → String → ℕ
decimal_from n Text.[] = n
decimal_from n (Text.◌∷◌ c s) = decimal_from (n * 10 + (code c - b'0')) s

unfoldable pub decimal : String → ℕ
unfolding decimal_from
decimal s = decimal_from 0 s

-- What is expected of the asset.
pub record Expected : Type 0 where
  pub rpc_url : String
  pub chain_id : ℕ
  pub contract_address : String
  pub token_id : ℕ
  pub expected_owner : Option String
  pub expected_asset_id : Option String
  pub expected_metadata_hash : Option String
  pub expected_code_hash : Option String

pub data Parsed : Type 0 where
  asks_help : Parsed
  verifies : Expected → Parsed

-- `isAddress` and `isHexString` of the library ethers, and `toLowerCase`.
pub record Formats : Type 0 where
  pub is_address : String → Bool
  pub is_hex_string : String → ℕ → Bool
  pub lower : String → String

-- `if (!values[option]) throw …`.
unfoldable pub required : String → Options → Result String
required option values = elim (lookup_option option values) [
  | none ↦ fail (Text.◌++◌ "Missing required option: --" option)
  | some v ↦ if str_eq v "" then fail (Text.◌++◌ "Missing required option: --" option) else ok v
]

-- `if (values[option] && !test(values[option])) throw …`; `none` passes.
unfoldable pub check_optional : (String → Bool) → String → String → Options → Result (Option String)
check_optional test message option values = elim (lookup_option option values) [
  | none ↦ ok none
  | some v ↦
      if not (str_eq v "") && not (test v)
      then fail (Text.◌++◌ "--" (Text.◌++◌ option message))
      else ok (some v)
]

unfoldable pub check_that : Bool → String → Result (Unit {0})
check_that true message = ok tt
check_that false message = fail message

module _ (f : Formats) where
  abbrev is_hash : String → Bool
  is_hash v = f.is_hex_string v 32

  abbrev pub lowered : Option String → Option String
  lowered none = none
  lowered (some v) = some (f.lower v)

  unfoldable pub check_options : Options → Result Expected
  unfolding required check_optional check_that is_decimal decimal
  check_options values = do
    rpc_url ← required "rpc-url" values
    chain_id ← required "chain-id" values
    contract_address ← required "contract-address" values
    token_id ← required "token-id" values
    a ←
        check_that (starts_with rpc_url "http://" || starts_with rpc_url "https://")
          "--rpc-url must be an HTTP(S) URL."
    b ←
        check_that (is_decimal chain_id && ltb 0 (decimal chain_id))
          "--chain-id must be a positive integer."
    c ← check_that (is_decimal token_id) "--token-id must be a non-negative integer."
    d ← check_optional f.is_address " must be an EVM address." "contract-address" values
    owner ← check_optional f.is_address " must be an EVM address." "expected-owner" values
    asset_id ← check_optional is_hash " must be a 32-byte hex value." "expected-asset-id" values
    metadata_hash ←
        check_optional is_hash " must be a 32-byte hex value." "expected-metadata-hash" values
    code_hash ← check_optional is_hash " must be a 32-byte hex value." "expected-code-hash" values
    ok (record {
      rpc_url = rpc_url;
      chain_id = decimal chain_id;
      contract_address = contract_address;
      token_id = decimal token_id;
      expected_owner = lowered owner;
      expected_asset_id = lowered asset_id;
      expected_metadata_hash = lowered metadata_hash;
      expected_code_hash = lowered code_hash;
    })

  unfoldable pub check_scan : Scan → Result Parsed
  unfolding check_options
  check_scan help = ok asks_help
  check_scan (options values) = do expected ← check_options values; ok (verifies expected)

  unfoldable pub parse_verifier_args : List String → Result Parsed
  unfolding scan_args check_scan
  parse_verifier_args argv = do scanned ← scan_args argv []; check_scan scanned
