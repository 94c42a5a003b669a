-- ===== src/StorageProxy.antt =====
-- vite.config.ts: the development server's proxy from /manus-storage to the storage backend.
pub mod Outcomes
pub mod Asked
mod Tests
use Prim.Native.Char.{code}
use Prim.Native.String as Text
use text.Mathlib.Text.{◌==◌ as str_eq}
use block_chain.Common.{
  ℕ, String, Bool, true, false, List, [], ◌∷◌, Option, none, some, if◌then◌else◌, ◌==◌,
}
use block_chain.Js.{Engine, Value, string, truthy, get, Result, ok, thrown, Error, ◌>>=◌}
use block_chain.Fetch.{Request, Reply, refused, answered, Response}

-- `writeHead(status, …)` and `end(text)`: the `Location` of a redirect, or a plain text.
pub data ProxyResponse : Type 0 where
  plain : (status : ℕ) → (text : String) → ProxyResponse
  redirect : (location : Value) → ProxyResponse

-- The proxy answers at once, or sends one request to the backend and answers by its reply.
pub data ProxyCall : Type 0 where
  answers : ProxyResponse → ProxyCall
  asks : Request → (Reply → ProxyResponse) → ProxyCall

-- `process.env`, where a variable may be missing.
pub record ForgeEnv : Type 0 where
  pub api_url : Option String
  pub api_key : Option String

-- `.replace(/^\//, "")`.
pub drop_first_slash : String → String
drop_first_slash Text.[] = ""
drop_first_slash (Text.◌∷◌ c s) = if code c == b'/' then s else Text.◌∷◌ c s

pub cut_slash : Bool → String → String → String
cut_slash true c Text.[] = ""
cut_slash _ c s = Text.◌++◌ c s

-- `.replace(/\/+$/, "")`.
pub drop_final_slashes : String → String
unfolding cut_slash
drop_final_slashes Text.[] = ""
drop_final_slashes (Text.◌∷◌ c s) =
    cut_slash (code c == b'/') (Text.◌∷◌ c "") (drop_final_slashes s)

-- `variable || ""`.
abbrev pub or_empty : Option String → String
or_empty none = ""
or_empty (some s) = s

-- `presign base key` is the address of `new URL("v1/storage/presign/get", base + "/")` with the key
-- as its `path`, or the error of a base that is no address; `valid` is whether `writeHead` takes the
-- value as a header.
module _ (js : Engine) (presign : String → String → Result String) (valid : Value → Bool) where
  abbrev pub proxy_error : ProxyResponse
  proxy_error = plain 502 "Storage proxy error"

  abbrev caught : Result ProxyResponse → ProxyResponse
  caught (ok r) = r
  caught (thrown e) = proxy_error

  pub redirect_to : Value → ProxyResponse
  redirect_to url =
      if truthy url
      then (if valid url then redirect url else proxy_error)
      else plain 502 "Empty signed URL"

  pub read_signed : Response → Result ProxyResponse
  unfolding redirect_to
  read_signed r =
      if r.ok
      then (do v ← r.json; url ← get js v "url"; ok (redirect_to url))
      else ok (plain 502 "Storage backend error")

  pub proxy_reply : Reply → ProxyResponse
  unfolding read_signed
  proxy_reply (refused e) = proxy_error
  proxy_reply (answered r) = caught (read_signed r)

  pub presign_request : String → String → Request
  presign_request forge_key forge_url = record {
    method = "GET";
    url = forge_url;
    headers = ("Authorization", Text.◌++◌ "Bearer " forge_key) ∷ [];
    body = none;
    credentials = none;
  }

  pub ask_forge : String → Result String → ProxyCall
  unfolding presign_request proxy_reply
  ask_forge forge_key (thrown e) = answers proxy_error
  ask_forge forge_key (ok forge_url) = asks (presign_request forge_key forge_url) proxy_reply

  pub with_forge : String → String → String → ProxyCall
  unfolding ask_forge
  with_forge key forge_base_url forge_key =
      if str_eq forge_base_url ""
      then answers (plain 500 "Storage proxy not configured")
      else if str_eq forge_key ""
      then answers (plain 500 "Storage proxy not configured")
      else ask_forge forge_key (presign forge_base_url key)

  -- The first argument is `req.url`.
  pub storage_proxy : Option String → ForgeEnv → ProxyCall
  unfolding with_forge drop_first_slash drop_final_slashes
  storage_proxy url env =
      let key = drop_first_slash (or_empty url) in
      if str_eq key ""
      then answers (plain 400 "Missing storage key")
      else with_forge key (drop_final_slashes (or_empty env.api_url)) (or_empty env.api_key)
