-- ===== src/StorageProxy/Asked.antt =====
-- The proxy's request to the storage backend.
use Prim.Native.String as Text
use text.Mathlib.Text.{◌==◌ as str_eq}
use block_chain.Common.{
  String, Bool, [], ◌∷◌, Option, none, some, ◌≡◌, ◌≢◌, ◌↔◌, inl, inr, refl, sym, ap, Bool-cases,
}
use block_chain.Js.{Engine, Value, Result, ok, thrown}
use block_chain.Fetch.{Request}
use block_chain.StorageProxy.{
  ProxyCall, answers, asks, ForgeEnv, or_empty, drop_first_slash, drop_final_slashes,
  presign_request, ask_forge, with_forge, storage_proxy,
}
use block_chain.StorageProxy.Outcomes.{filled, not_filled}

-- The request that the call sends, if it sends one.
abbrev pub request_of : ProxyCall → Option Request
request_of (answers r) = none
request_of (asks request k) = some request

-- A GET request whose only header bears the backend's key.
abbrev pub signed_request : String → String → Request
signed_request forge_key address = record {
  method = "GET";
  url = address;
  headers = ("Authorization", Text.◌++◌ "Bearer " forge_key) ∷ [];
  body = none;
  credentials = none;
}

module _ (js : Engine) (presign : String → String → Result String) (valid : Value → Bool) where
  -- From the storage key, the backend's address and its key.
  abbrev pub AsksFor : String → String → String → Request → Type 0
  AsksFor key base forge_key request =
      (address : String) × (key ≢ "")
      × (base ≢ "")
      × (forge_key ≢ "")
      × (presign base key ≡ ok address)
      × (request ≡ signed_request forge_key address)

  ask_forge_asks :
      (forge_key : String) (forge_url : Result String) (request : Request)
      → request_of (ask_forge js presign valid forge_key forge_url) ≡ some request
      → (address : String) × (forge_url ≡ ok address) × (request ≡ signed_request forge_key address)
  unfolding ask_forge presign_request
  ask_forge_asks forge_key (thrown e) request h = cc
  ask_forge_asks forge_key (ok address) request h = (address, refl, cc)

  with_forge_asks :
      (key base forge_key : String) (request : Request)
      → key ≢ ""
      → request_of (with_forge js presign valid key base forge_key) ≡ some request
      → AsksFor key base forge_key request
  unfolding with_forge
  with_forge_asks key base forge_key request named h = elim (Bool-cases (str_eq base "")) [
    | inl e ↦ cc (rw e at h)
    | inr no_base ↦ elim (Bool-cases (str_eq forge_key "")) [
      | inl e ↦ cc (rw (no_base, e) at h)
      | inr no_key ↦
          let (address, at_url, same) =
            ask_forge_asks forge_key (presign base key) request (rw (no_base, no_key) at h) in
          (address, named, filled base no_base, filled forge_key no_key, at_url, same)
    ]
  ]

  -- The proxy sends a request exactly when the browser's path has a storage key after its first slash, the
  -- backend's address (without its last slashes) and key are configured and not empty, and the two make
  -- an address; the request is a GET to that address, with the key as bearer in its only header.
  pub storage_proxy-asks_iff :
      (url : Option String) (env : ForgeEnv) (request : Request)
      → (request_of (storage_proxy js presign valid url env) ≡ some request)
        ↔ AsksFor
            (drop_first_slash (or_empty url))
            (drop_final_slashes (or_empty env.api_url))
            (or_empty env.api_key)
            request
  unfolding storage_proxy with_forge ask_forge presign_request
  storage_proxy-asks_iff url env request = (
    λ h. elim (Bool-cases (str_eq (drop_first_slash (or_empty url)) "")) [
      | inl e ↦ cc (rw e at h)
      | inr e ↦
          with_forge_asks (drop_first_slash (or_empty url))
            (drop_final_slashes (or_empty env.api_url)) (or_empty env.api_key) request
            (filled (drop_first_slash (or_empty url)) e) (rw e at h)
    ],
    λ (address, named, has_base, has_key, at_url, same).
        rw
          (
            not_filled (drop_first_slash (or_empty url)) named,
            not_filled (drop_final_slashes (or_empty env.api_url)) has_base,
            not_filled (or_empty env.api_key) has_key,
            at_url,
          )
          (ap some (sym same)),
  )
