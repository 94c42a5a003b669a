-- ===== src/Forms.antt =====
-- apps/web/src/components/IdentityModule.tsx and AssetVaultModule.tsx: two forms, each with its own state,
-- that post their fields and show the reply.
pub mod Told
pub mod InFlight
mod Tests
use Prim.Native.String as Text
use text.Mathlib.Text.{◌==◌ as str_eq}
use block_chain.Common.{
  ℕ, zero, suc, ◌-◌, String, Bool, true, false, ◌||◌, List, [], ◌∷◌, ◌++◌, if◌then◌else◌,
}
use block_chain.Js.{Engine, Error, Value, null, string, Fields, end, field}
use block_chain.Js.Effects.{Run, ◌>>=◌, ◌>>◌, lift, modify, try_catch}
use block_chain.Fetch.{Request, post_json, Reply, response}
use block_chain.Home.Page.{Toast, success, error}
use block_chain.Home.Texts.{text_of, hash_start}
use block_chain.Home.Replies.{join_two}

pub data Kind : Type 0 where
  identity_module asset_vault : Kind

-- `values` are the texts of the form's fields, `waiting` the number of requests that wait for a reply.
pub record Form : Type 0 where
  pub values : List String
  pub submitting : Bool
  pub stored : Value
  pub toasts : List Toast
  pub sent : List Request
  pub waiting : ℕ

abbrev pub initial_values : Kind → List String
initial_values identity_module =
    "did:algo:subject001" ∷ "0xa1b2c3d4e5f67890123456789abcdef0123456789abcdef0123456789abcdef0"
    ∷ []
initial_values asset_vault =
    "Confidential Financial Records" ∷ "CFR1"
    ∷ "CONFIDENTIAL PAYLOAD: Quarterly audit & security clearance token"
    ∷ "0123456789abcdef0123456789abcdef0123456789abcdef0123456789abcdef" ∷ []

abbrev pub initial_form : Kind → Form
initial_form k = record {
  values = initial_values k;
  submitting = false;
  stored = null;
  toasts = [];
  sent = [];
  waiting = 0;
}

-- The names of the fields in the request.
abbrev pub field_names : Kind → List String
field_names identity_module = "subject_did" ∷ "public_key" ∷ []
field_names asset_vault = "asset_name" ∷ "unit_name" ∷ "payload_content" ∷ "encryption_key_hex" ∷ []

abbrev pub body_of : List String → List String → Fields
body_of [] values = end
body_of (name ∷ names) [] = end
body_of (name ∷ names) (v ∷ values) = field name (string v) (body_of names values)

abbrev pub path_of : Kind → String
path_of identity_module = "/v1/algorand/identities/register"
path_of asset_vault = "/v1/algorand/assets/mint"

-- `handleRegister` and `handleMintAsset` as far as their `await`.
unfoldable pub handle_submit : Kind → Form → Form
handle_submit k f = record f {
  submitting = true;
  sent = f.sent ++ post_json (path_of k) (body_of (field_names k) f.values) ∷ [];
  waiting = suc f.waiting;
}

abbrev pub some_empty : List String → Bool
some_empty [] = false
some_empty (v ∷ values) = str_eq v "" || some_empty values

-- The button is disabled while a request is under way, and every field is required.
unfoldable pub click_submit : Kind → Form → Form
unfolding handle_submit
click_submit k f = if f.submitting || some_empty f.values then f else handle_submit k f

-- A field's `onChange`.
abbrev pub set_value : ℕ → String → List String → List String
set_value i v [] = []
set_value zero v (w ∷ values) = v ∷ values
set_value (suc i) v (w ∷ values) = w ∷ set_value i v values

abbrev pub set_stored : Value → Form → Form
set_stored v f = record f { stored = v }

abbrev pub add_toast : Toast → Form → Form
add_toast t f = record f { toasts = f.toasts ++ t ∷ [] }

abbrev pub error_title : Kind → String
error_title identity_module = "Registration error: "
error_title asset_vault = "Minting error: "

abbrev pub failure_title : Kind → String
failure_title identity_module = "Failed to communicate with Identity Registry smart contract"
failure_title asset_vault = "Failed to communicate with Asset Vault smart contract"

module _ (js : Engine) where
  unfoldable pub announce : Kind → Value → Run Form (Unit {0})
  unfolding text_of hash_start
  announce identity_module v = do
    did ← lift (text_of js v "did")
    hash ← lift (hash_start js v)
    modify (
        add_toast (
          success "Identity Registered!" (join_two "DID: " did " | Hash: " (Text.◌++◌ hash "..."))))
  announce asset_vault v = do
    asset_id ← lift (text_of js v "asset_id")
    unit_name ← lift (text_of js v "unit_name")
    modify (
        add_toast (
          success "ASA Digital Asset Minted!"
            (join_two "Asset ID: #" asset_id " | ASA Unit: " unit_name)))

  unfoldable pub take_reply : Kind → Bool → Value → Run Form (Unit {0})
  unfolding announce text_of
  take_reply k true v = do modify (set_stored v); announce k v
  take_reply k false v = do
    detail ← lift (text_of js v "detail")
    modify (add_toast (error (Text.◌++◌ (error_title k) detail)))

  -- The handlers from their reply on.
  unfoldable pub reply_submit : Kind → Reply → Form → Form
  unfolding take_reply
  reply_submit k reply f =
      let g =
        try_catch (do res ← lift (response reply); v ← lift res.json; take_reply k res.ok v)
          (λ e. add_toast (error (failure_title k))) f in
      record g { submitting = false; waiting = g.waiting - 1 }

pub data Event : Type 0 where
  typed : ℕ → String → Event
  submitted : Event
  replied : Reply → Event

module _ (js : Engine) (k : Kind) where
  abbrev pub reply_if : ℕ → Reply → Form → Form
  reply_if zero reply f = f
  reply_if (suc n) reply f = reply_submit js k reply f

  unfoldable pub step : Event → Form → Form
  unfolding click_submit reply_submit
  step (typed i v) f = record f { values = set_value i v f.values }
  step submitted f = click_submit k f
  step (replied reply) f = reply_if f.waiting reply f

  -- The form after a history of events, the newest first.
  unfoldable pub form_after : List Event → Form
  unfolding step
  form_after [] = initial_form k
  form_after (e ∷ es) = step e (form_after es)
