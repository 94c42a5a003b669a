-- ===== src/Deploy/Environment.antt =====
-- `selectedEnvironment` and `sourceCommit`.
use Prim.Native.Char.{code}
use Prim.Native.String as Text
use text.Mathlib.Text.{◌==◌ as str_eq}
use block_chain.Common.{
  String, Bool, true, ◌&&◌, List, [], ◌∷◌, Option, none, some, if◌then◌else◌, leb,
}
use block_chain.Js.{Result, ok, fail, ◌>>=◌}
use block_chain.AuditApi.{is_hex_digit, trim}

pub data Environment : Type 0 where
  local ci development testnet pilot production : Environment

abbrev pub environments : List Environment
environments = local ∷ ci ∷ development ∷ testnet ∷ pilot ∷ production ∷ []

abbrev pub environment_text : Environment → String
environment_text local = "local"
environment_text ci = "ci"
environment_text development = "development"
environment_text testnet = "testnet"
environment_text pilot = "pilot"
environment_text production = "production"

abbrev pub or_text : Option String → String → String
or_text none default = default
or_text (some s) default = s

-- The environment of this name in a list.
unfoldable pub find_environment : List Environment → String → Result Environment
find_environment [] value = fail (Text.◌++◌ "Unsupported APP_ENV: " value)
find_environment (e ∷ es) value =
    let rest = find_environment es value in if str_eq (environment_text e) value then ok e else rest

unfoldable pub selected_environment : Option String → Result Environment
unfolding find_environment
selected_environment app_env = find_environment environments (or_text app_env "local")

abbrev pub all_hex : String → Bool
all_hex Text.[] = true
all_hex (Text.◌∷◌ c s) = is_hex_digit (code c) && all_hex s

-- `/^[0-9a-fA-F]{40,64}$/`.
unfoldable pub is_full_hash : String → Bool
is_full_hash s = leb 40 (Text.count s) && (leb (Text.count s) 64 && all_hex s)

unfoldable pub check_commit : String → Result String
unfolding is_full_hash
check_commit commit =
    if is_full_hash commit
    then ok commit
    else fail "GIT_COMMIT or GITHUB_SHA must be a full commit hash"

-- The last argument is what `git rev-parse HEAD` comes to.
unfoldable pub source_commit : Option String → Option String → Result String → Result String
unfolding check_commit
source_commit (some commit) github_sha head = check_commit commit
source_commit none (some commit) head = check_commit commit
source_commit none none head = do commit ← head; check_commit (trim commit)
