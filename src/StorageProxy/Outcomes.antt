-- ===== src/StorageProxy/Outcomes.antt =====
-- The proxy's answers.
use text.Mathlib.Text.{◌==◌ as str_eq}
use text.Mathlib.TextEquality.{eq_iff}
use block_chain.Common.{
  String, Bool, true, false, Option, ◌≡◌, ◌≢◌, ◌↔◌, inl, inr, refl, sym, ap, ◌∙◌, arith, Bool-cases,
}
use mathlib.Core.Bool.{false≢true}
use block_chain.Js.{Engine, Value, truthy, get, Result, ok, thrown, returns, throws, Result-cases}
use block_chain.Fetch.{Reply, refused, answered, Response}
use block_chain.StorageProxy.{
  ProxyResponse, redirect, ProxyCall, answers, asks, ForgeEnv, or_empty, drop_first_slash,
  drop_final_slashes, redirect_to, proxy_reply, ask_forge, with_forge, storage_proxy,
}

pub filled : (x : String) → str_eq x "" ≡ false → x ≢ ""
filled x full = λ e. false≢true (sym full ∙ (eq_iff x "").1 e)

pub not_filled : (x : String) → x ≢ "" → str_eq x "" ≡ false
not_filled x full = elim (Bool-cases (str_eq x "")) [
  | inl e ↦ absurd (full ((eq_iff x "").0 e))
  | inr e ↦ e
]

-- The call's response once the backend has replied.
abbrev pub response_of : ProxyCall → Reply → ProxyResponse
response_of (answers r) reply = r
response_of (asks req k) reply = k reply

module _ (js : Engine) (presign : String → String → Result String) (valid : Value → Bool) where
  -- The backend's reply is a success whose payload has this usable `url`.
  abbrev pub Signs : Reply → Value → Type 0
  Signs reply url =
      (r : Response) × (v : Value) × (reply ≡ answered r)
      × (r.ok ≡ true)
      × (r.json ≡ ok v)
      × (get js v "url" ≡ ok url)
      × (truthy url ≡ true)
      × (valid url ≡ true)

  -- The request names a key, and the backend's address and key are configured.
  abbrev pub IsReady : Option String → ForgeEnv → Type 0
  IsReady url env =
      (drop_first_slash (or_empty url) ≢ "")
      × (drop_final_slashes (or_empty env.api_url) ≢ "")
      × (or_empty env.api_key ≢ "")
      × ((address : String) × (presign (drop_final_slashes (or_empty env.api_url))
              (drop_first_slash (or_empty url))
            ≡ ok address))

  redirect_to_sound :
      (url location : Value)
      → redirect_to js presign valid url ≡ redirect location
      → (url ≡ location) × (truthy url ≡ true) × (valid url ≡ true)
  unfolding redirect_to
  redirect_to_sound url location h = ground arith

  proxy_reply_sound :
      (reply : Reply) (location : Value)
      → proxy_reply js presign valid reply ≡ redirect location
      → Signs reply location
  unfolding proxy_reply
  proxy_reply_sound (refused e) location h = cc
  proxy_reply_sound (answered r) location h = elim (Bool-cases r.ok) [
    | inr bad ↦ cc (rw bad at h)
    | inl good ↦ elim (Result-cases r.json) [
      | throws e j ↦ cc (rw (good, j) at h)
      | returns v j ↦ elim (Result-cases (get js v "url")) [
        | throws e g ↦ cc (rw (good, j, g) at h)
        | returns url g ↦
            let (same, yes_url, yes_valid) =
              redirect_to_sound url location (rw (good, j, g) at h) in
            (
              r,
              v,
              refl,
              good,
              j,
              g ∙ ap ok same,
              ap truthy (sym same) ∙ yes_url,
              ap valid (sym same) ∙ yes_valid,
            )
      ]
    ]
  ]

  proxy_reply_complete :
      (reply : Reply) (location : Value)
      → Signs reply location
      → proxy_reply js presign valid reply ≡ redirect location
  unfolding proxy_reply
  proxy_reply_complete reply location (r, v, same, good, j, g, yes_url, yes_valid) =
      rw (same, good, j, g, yes_url, yes_valid)

  ask_forge_sound :
      (forge_key : String) (forge_url : Result String) (reply : Reply) (location : Value)
      → response_of (ask_forge js presign valid forge_key forge_url) reply ≡ redirect location
      → ((address : String) × (forge_url ≡ ok address)) × Signs reply location
  unfolding ask_forge
  ask_forge_sound forge_key (thrown e) reply location h = cc
  ask_forge_sound forge_key (ok address) reply location h =
      ((address, refl), proxy_reply_sound reply location h)

  ask_forge_complete :
      (forge_key : String) (forge_url : Result String) (reply : Reply) (location : Value)
      → ((address : String) × (forge_url ≡ ok address))
      → Signs reply location
      → response_of (ask_forge js presign valid forge_key forge_url) reply ≡ redirect location
  unfolding ask_forge
  ask_forge_complete forge_key forge_url reply location (address, same) signs =
      rw same (proxy_reply_complete reply location signs)

  with_forge_sound :
      (key base forge_key : String) (reply : Reply) (location : Value)
      → response_of (with_forge js presign valid key base forge_key) reply ≡ redirect location
      → (base ≢ "")
        × (forge_key ≢ "")
        × ((address : String) × (presign base key ≡ ok address))
        × Signs reply location
  unfolding with_forge
  with_forge_sound key base forge_key reply location h = elim (Bool-cases (str_eq base "")) [
    | inl e ↦ cc (rw e at h)
    | inr no_base ↦ elim (Bool-cases (str_eq forge_key "")) [
      | inl e ↦ cc (rw (no_base, e) at h)
      | inr no_key ↦
          let (address, signs) =
            ask_forge_sound forge_key (presign base key) reply location
              (rw (no_base, no_key) at h) in
          (filled base no_base, filled forge_key no_key, address, signs)
    ]
  ]

  with_forge_complete :
      (key base forge_key : String) (reply : Reply) (location : Value)
      → (base ≢ "") × (forge_key ≢ "") × ((address : String) × (presign base key ≡ ok address))
      → Signs reply location
      → response_of (with_forge js presign valid key base forge_key) reply ≡ redirect location
  unfolding with_forge
  with_forge_complete key base forge_key reply location (has_base, has_key, address) signs =
      let done = ask_forge_complete forge_key (presign base key) reply location address signs in
      rw (not_filled base has_base, not_filled forge_key has_key) done

  -- The proxy redirects exactly when the request names a key, the backend is configured with a usable
  -- address, and its reply is a success with a usable `url`; the browser is sent to that `url`.
  pub storage_proxy-redirect_iff :
      (url : Option String) (env : ForgeEnv) (reply : Reply) (location : Value)
      → (response_of (storage_proxy js presign valid url env) reply ≡ redirect location)
        ↔ (IsReady url env × Signs reply location)
  unfolding storage_proxy
  storage_proxy-redirect_iff url env reply location = (
    λ h. elim (Bool-cases (str_eq (drop_first_slash (or_empty url)) "")) [
      | inl e ↦ cc (rw e at h)
      | inr e ↦
          let (has_base, has_key, address, signs) =
            with_forge_sound (drop_first_slash (or_empty url))
              (drop_final_slashes (or_empty env.api_url)) (or_empty env.api_key) reply location
              (rw e at h) in
          ((filled (drop_first_slash (or_empty url)) e, has_base, has_key, address), signs)
    ],
    λ ((names_key, has_base, has_key, address), signs).
        let done =
          with_forge_complete (drop_first_slash (or_empty url))
            (drop_final_slashes (or_empty env.api_url)) (or_empty env.api_key) reply location
            (has_base, has_key, address) signs in
        rw (not_filled (drop_first_slash (or_empty url)) names_key) done,
  )
