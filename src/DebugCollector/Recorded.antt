-- ===== src/DebugCollector/Recorded.antt =====
-- What is recorded of the request that the dashboard sends to the bank.
use Prim.Native.String as Text
use text.Mathlib.Text.{◌==◌ as str_eq}
use block_chain.Common.{
  ℕ, ◌-◌, ◌≤◌, String, false, List, [], ◌∷◌, ◌++◌, map, Option, none, some, ◌≡◌, refl, inl, inr,
  arith, ltb, length, drop, get_elem?-append, drop-append, length-append, Bool-cases,
}
use block_chain.Fetch.{Request}
use block_chain.Js.{Value, undefined, string, object, own, own_or_undefined, ok}
use block_chain.OpenBanking.Handlers.{bank_request, bank_endpoint}
use block_chain.DebugCollector.Store.{
  Browser, Moment, Store, prune_buffer, push_network, log_ui_event, push_ui, network_size,
}
use block_chain.DebugCollector.Network.{
  FetchCall, address, is_internal, fetch_entry, fail_fetch, log_failure, entry_value,
}
use block_chain.DebugCollector.Session.{
  Event, fetch_called, fetch_failed, step, collector_after, drop_fetch,
}

abbrev field_of : String → Value → Value
field_of key (object fs) = own_or_undefined (own fs key)
field_of key _ = undefined

-- `Headers` gives the names in lower case; the body is the text of the request's.
abbrev pub call_of : Browser → Request → FetchCall
call_of b r = record {
  input = address r.url;
  init_method = r.method;
  headers = some (ok (map (λ (k, v). (b.lower k, v)) r.headers));
  body = go r.body;
}
  where
    go : Option Value → Value
    go none = undefined
    go (some v) = string (b.stringify v)

-- The newest entry survives the pruning.
prune_buffer-newest :
    (max : ℕ) (vs : List Value) (v : Value)
    → 1 ≤ max
    → (front : List Value) × (prune_buffer max (vs ++ v ∷ []) ≡ front ++ v ∷ [])
unfolding prune_buffer
prune_buffer-newest max vs v h = elim (Bool-cases (ltb max (length (vs ++ v ∷ [])))) [
  | inl long ↦ rw long (
    drop (length (vs ++ v ∷ []) - max) vs,
    drop-append (length (vs ++ v ∷ []) - max) vs (v ∷ [])
        (omega (arith, length-append vs (v ∷ []), h)),
  )
  | inr short ↦ rw short (vs, refl)
]

abbrev pub authorization_of : Value → Value
authorization_of entry = field_of "authorization" (field_of "headers" (field_of "request" entry))

-- The newest of the recorded requests carries the header.
abbrev pub EndsWithAuthorization : String → List Value → Type 0
EndsWithAuthorization credential vs =
    (front : List Value) × (entry : Value) × (vs ≡ front ++ entry ∷ [])
    × (authorization_of entry ≡ string credential)

abbrev pub credential : String → String
credential token = Text.◌++◌ "Bearer " token

authorization_of-fetch_entry :
    (b : Browser) (data_type token : String) (now : ℕ) (response duration error : Value)
    → b.lower "Authorization" ≡ "authorization"
    → authorization_of (
        entry_value
          (fetch_entry b (call_of b (bank_request data_type token)) now)
          response
          duration
          error)
      ≡ string (credential token)
unfolding entry_value fetch_entry bank_request
authorization_of-fetch_entry b data_type token now response duration error e = rw e refl

push_network-EndsWithAuthorization :
    (b : Browser) (data_type token : String) (now : ℕ) (response duration error : Value) (s : Store)
    → b.lower "Authorization" ≡ "authorization"
    → EndsWithAuthorization
        (credential token)
        (push_network
          (entry_value
            (fetch_entry b (call_of b (bank_request data_type token)) now)
            response
            duration
            error)
          s).network_requests
unfolding push_network
push_network-EndsWithAuthorization b data_type token now response duration error s e =
    let entry =
      entry_value (fetch_entry b (call_of b (bank_request data_type token)) now) response duration
        error in
    let (front, kept) = prune_buffer-newest network_size s.network_requests entry (omega arith) in
    (
      front,
      entry,
      kept,
      authorization_of-fetch_entry b data_type token now response duration error e,
    )

bank_endpoint-external : (data_type : String) → is_internal (bank_endpoint data_type) ≡ false
unfolding bank_endpoint
bank_endpoint-external data_type = elim (Bool-cases (str_eq data_type "TRANSACTIONS")) [
  | inl transactions ↦ rw transactions refl
  | inr accounts ↦ rw accounts refl
]

-- After any session, when the dashboard sends its request to the bank and the request fails, the newest
-- entry of the recorded requests holds the customer's token in full, as the header "authorization" that it
-- was sent with, provided that the language's `toLowerCase` makes "authorization" of "Authorization".
pub fetch_failed-bank_request :
    (b : Browser) (es : List Event) (data_type token : String) (now : ℕ) (message stack : Value)
    (m : Moment)
    → b.lower "Authorization" ≡ "authorization"
    → EndsWithAuthorization
        (credential token)
        (collector_after b (
          fetch_failed (length (collector_after b es).fetches) message stack m
          ∷ fetch_called (call_of b (bank_request data_type token)) now
          ∷ es)).store.network_requests
unfolding collector_after step drop_fetch fail_fetch log_failure log_ui_event push_ui bank_request
fetch_failed-bank_request b es data_type token now message stack m e =
    let c = collector_after b es in
    rw
      (
        bank_endpoint-external data_type,
        get_elem?-append c.fetches (fetch_entry b (call_of b (bank_request data_type token)) now)
            [],
      )
      (push_network-EndsWithAuthorization b data_type token now _ _ _ c.store e)
