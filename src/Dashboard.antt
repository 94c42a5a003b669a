-- ===== src/Dashboard.antt =====
-- apps/web/src/pages/Dashboard.tsx with the buttons of components/WalletCard.tsx and the label of
-- components/Header.tsx: the wallet's address and passphrase, and the state of the backend.
pub mod Keypair
pub mod Wallet
mod Tests
use Prim.Native.String as Text
use block_chain.Common.{
  ℕ, zero, suc, String, Bool, true, false, List, [], ◌∷◌, ◌++◌, Option, none, some, if◌then◌else◌,
}
use block_chain.Js as Js
use block_chain.Js.{
  Engine, Error, Value, null, truthy, is_text, get, slice_to, slice_from_end, to_text, Result, ok,
}
use block_chain.Js.Effects.{Run, ◌>>=◌, ◌>>◌, lift, pure, modify, try_catch}
use block_chain.Fetch.{Reply, response}
use block_chain.Home.Page.{Toast, success, error}
use block_chain.Home.Replies.{join_two}

-- `waiting` is how many requests for a keypair wait for a reply.
pub record Dashboard : Type 0 where
  pub api_online : Bool
  pub algo_address : Value
  pub mnemonic : Value
  pub clipboard : Option Value
  pub toasts : List Toast
  pub waiting : ℕ

abbrev pub initial_dashboard : Dashboard
initial_dashboard = record {
  api_online = false;
  algo_address = null;
  mnemonic = null;
  clipboard = none;
  toasts = [];
  waiting = 0;
}

abbrev pub set_api_online : Bool → Dashboard → Dashboard
set_api_online b d = record d { api_online = b }

abbrev pub set_algo_address : Value → Dashboard → Dashboard
set_algo_address v d = record d { algo_address = v }

abbrev pub set_mnemonic : Value → Dashboard → Dashboard
set_mnemonic v d = record d { mnemonic = v }

abbrev pub add_toast : Toast → Dashboard → Dashboard
add_toast t d = record d { toasts = d.toasts ++ t ∷ [] }

-- `copyToClipboard` of WalletCard; its toast has no description.
unfoldable pub copy_to_clipboard : Value → String → Dashboard → Dashboard
copy_to_clipboard v label d =
    record (add_toast (success (Text.◌++◌ label " copied to clipboard!") "") d) {
      clipboard = some v;
    }

-- The two copy buttons, each shown with what it copies.
unfoldable pub click_copy_address : Dashboard → Dashboard
unfolding copy_to_clipboard
click_copy_address d =
    if truthy d.algo_address then copy_to_clipboard d.algo_address "Algorand Address" d else d

unfoldable pub click_copy_mnemonic : Dashboard → Dashboard
unfolding copy_to_clipboard
click_copy_mnemonic d =
    if truthy d.mnemonic then copy_to_clipboard d.mnemonic "Mnemonic Passphrase" d else d

-- `handleGenerateWallet` as far as its `await`; its buttons are never disabled.
abbrev pub handle_generate_wallet : Dashboard → Dashboard
handle_generate_wallet d = record d { waiting = suc d.waiting }

module _ (js : Engine) where
  -- The label of the header's button.
  unfoldable pub header_label : Value → Result String
  header_label address =
      if truthy address
      then Js.◌>>=◌ (slice_to js address 6) (λ first. Js.◌>>=◌ (to_text js first) (λ first_text.
        Js.◌>>=◌ (slice_from_end js address 4) (λ last.
          Js.◌>>=◌ (to_text js last) (λ last_text. ok (join_two "" first_text "..." last_text)))))
      else ok "Connect Wallet"

  -- The reply of /healthz.
  unfoldable pub reply_health : Reply → Dashboard → Dashboard
  reply_health reply =
      try_catch
        (do
          res ← lift (response reply)
          v ← lift res.json
          status ← lift (get js v "status")
          modify (set_api_online (is_text status "ok")))
        (λ e. set_api_online false)

  unfoldable pub announce_keypair : Value → Run Dashboard (Unit {0})
  announce_keypair address = do
    first ← lift (slice_to js address 10)
    first_text ← lift (to_text js first)
    last ← lift (slice_from_end js address 6)
    last_text ← lift (to_text js last)
    modify (
        add_toast
          (success "Algorand Keypair Generated!" (join_two "Address: " first_text "..." last_text)))

  unfoldable pub take_keypair : Bool → Value → Value → Run Dashboard (Unit {0})
  unfolding announce_keypair
  take_keypair true v address = do
    modify (set_algo_address address)
    mnemonic ← lift (get js v "mnemonic")
    modify (set_mnemonic mnemonic)
    announce_keypair address
  take_keypair false v address = pure tt

  -- `handleGenerateWallet` from its reply on.
  unfoldable pub reply_generate_wallet : Reply → Dashboard → Dashboard
  unfolding take_keypair
  reply_generate_wallet reply =
      try_catch
        (do
          res ← lift (response reply)
          v ← lift res.json
          address ← lift (get js v "address")
          take_keypair (truthy address) v address)
        (λ e. add_toast (error "Failed to communicate with Algorand backend service"))

pub data Event : Type 0 where
  health_replied : Reply → Event
  generate_clicked : Event
  wallet_replied : Reply → Event
  address_copied mnemonic_copied : Event

module _ (js : Engine) where
  abbrev pub wallet_reply : ℕ → Reply → Dashboard → Dashboard
  wallet_reply zero reply d = d
  wallet_reply (suc n) reply d = reply_generate_wallet js reply (record d { waiting = n })

  unfoldable pub step : Event → Dashboard → Dashboard
  unfolding reply_health reply_generate_wallet click_copy_address click_copy_mnemonic
  step (health_replied reply) d = reply_health js reply d
  step generate_clicked d = handle_generate_wallet d
  step (wallet_replied reply) d = wallet_reply d.waiting reply d
  step address_copied d = click_copy_address d
  step mnemonic_copied d = click_copy_mnemonic d

  -- The dashboard after a history of events, the newest first.
  unfoldable pub dashboard_after : List Event → Dashboard
  unfolding step
  dashboard_after [] = initial_dashboard
  dashboard_after (e ∷ es) = step e (dashboard_after es)
