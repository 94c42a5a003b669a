-- ===== src/Home/Events.antt =====
-- The events that the browser delivers to the page. A form's button is disabled while its request is
-- under way; the dialog's permission buttons are not.
use block_chain.Common.{
  ℕ, String, false, not, List, [], ◌∷◌, Option, none, some, if◌then◌else◌, get_elem?, erase_idx,
  ltb,
}
use text.Mathlib.Text.{◌==◌ as str_eq}
use block_chain.Js.{Engine}
use block_chain.Fetch.{Reply}
use block_chain.Home.Page.{Page, Job, initial_page}
use block_chain.Home.Handlers.{
  handle_register_identity, handle_mint_asa_asset, handle_assign_role, fetch_audit_logs,
  check_health, handle_connect_wallet, handle_evaluate_permission,
}
use block_chain.Home.Replies.{reply_job}

pub data Event : Type 0 where
  toggle_menu : Event
  scroll_to : ℕ → Event
  press_key : String → Event
  type_did type_pub_key type_asset_name type_unit_name type_payload type_encryption_key
        type_role_address choose_role :
      String → Event
  submit_identity submit_asset submit_role : Event
  open_modal : String → Event
  close_modal open_event_explorer connect_wallet : Event
  click_permission click_dialog_permission : String → Event
  -- The i-th request that is under way is answered.
  reply : ℕ → Reply → Event

module _ (js : Engine) where
  unfoldable pub answer : Option Job → ℕ → Reply → Page → Page
  unfolding reply_job
  answer none i r p = p
  answer (some job) i r p = reply_job js job r (record p { pending = erase_idx p.pending i })

  unfoldable pub step : Event → Page → Page
  unfolding answer handle_register_identity handle_mint_asa_asset handle_assign_role
      fetch_audit_logs handle_connect_wallet handle_evaluate_permission
  step toggle_menu p = record p { menu_open = not p.menu_open }
  step (scroll_to y) p = record p { has_scrolled = ltb 32 y }
  step (press_key key) p =
      if str_eq key "Escape" then record p { identity_detail_open = false } else p
  step (type_did s) p = record p { did_input = s }
  step (type_pub_key s) p = record p { pub_key_input = s }
  step (type_asset_name s) p = record p { asset_name_input = s }
  step (type_unit_name s) p = record p { unit_name_input = s }
  step (type_payload s) p = record p { payload_input = s }
  step (type_encryption_key s) p = record p { encryption_key_input = s }
  step (type_role_address s) p = record p { role_address_input = s }
  step (choose_role s) p = record p { selected_role_input = s }
  step submit_identity p = if p.registering then p else handle_register_identity p
  step submit_asset p = if p.minting then p else handle_mint_asa_asset p
  step submit_role p = if p.assigning_role then p else handle_assign_role p
  step (open_modal name) p = record p { active_modal = some name }
  step close_modal p = record p { active_modal = none }
  step open_event_explorer p = fetch_audit_logs (record p { active_modal = some "audit" })
  step connect_wallet p = handle_connect_wallet p
  step (click_permission permission) p =
      if p.evaluating then p else handle_evaluate_permission permission p
  step (click_dialog_permission permission) p = handle_evaluate_permission permission p
  step (reply i r) p = answer (get_elem? p.pending i) i r p

  -- The page after a history of events, the newest first. Mounting checks the backend's health.
  unfoldable pub page_after : List Event → Page
  unfolding step check_health
  page_after [] = check_health initial_page
  page_after (e ∷ es) = step e (page_after es)
