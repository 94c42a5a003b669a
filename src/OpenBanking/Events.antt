-- ===== src/OpenBanking/Events.antt =====
-- The events that the browser delivers to the dashboard, and what one does to the page.
use block_chain.Common.{
  ℕ, zero, suc, String, List, [], ◌∷◌, Option, none, some, if◌then◌else◌, get_elem?, erase_idx,
}
use text.Mathlib.Text.{◌==◌ as str_eq}
use block_chain.Js.{Engine, Value, string, Number}
use block_chain.Fetch.{Reply}
use block_chain.OpenBanking.Page.{Page, Persona, Job, initial_page, refresh_data}
use block_chain.OpenBanking.Handlers.{
  handle_verify_identity, handle_grant_consent, handle_revoke_consent, handle_evaluate_access,
  handle_fetch_bank_data, handle_approve_org,
}
use block_chain.OpenBanking.Replies.{reply_job}

-- `reply i r` is the reply to the i-th request that is under way.
pub data Event : Type 0 where
  show_persona : Persona → Event
  type_user_wallet choose_bank type_tsp choose_data_type : String → Event
  choose_duration : Number → Event
  click_verify_identity click_grant_consent click_evaluate_access click_fetch_bank_data : Event
  click_revoke_consent click_approve_org : Value → Event
  reply : ℕ → Reply → Event
  poll notification_timeout : Event

-- `setUserWallet`; the effect that depends on the wallet runs again if it changed.
unfoldable pub set_user_wallet : String → Page → Page
unfolding refresh_data
set_user_wallet wallet p =
    if str_eq wallet p.user_wallet
    then p
    else refresh_data wallet (record p { user_wallet = wallet })

-- The `setTimeout` of `showNotification`, if one is due.
unfoldable pub clear_notification : ℕ → Page → Page
clear_notification zero p = p
clear_notification (suc n) p = record p { notification = string ""; timers = n }

module _ (js : Engine) where
  unfoldable pub answer : Option Job → ℕ → Reply → Page → Page
  unfolding reply_job
  answer none i r p = p
  answer (some job) i r p = reply_job js job r (record p { pending = erase_idx p.pending i })

  unfoldable pub step : Event → Page → Page
  unfolding set_user_wallet clear_notification answer handle_verify_identity handle_grant_consent
      handle_revoke_consent handle_evaluate_access handle_fetch_bank_data handle_approve_org
      refresh_data
  step (show_persona persona) p = record p { active_persona = persona }
  step (type_user_wallet wallet) p = set_user_wallet wallet p
  step (choose_bank wallet) p = record p { bank_wallet = wallet }
  step (type_tsp wallet) p = record p { tsp_wallet = wallet }
  step (choose_data_type data_type) p = record p { data_type = data_type }
  step (choose_duration seconds) p = record p { grant_duration = seconds }
  step click_verify_identity p = handle_verify_identity p
  step click_grant_consent p = handle_grant_consent p
  step click_evaluate_access p = handle_evaluate_access p
  step click_fetch_bank_data p = handle_fetch_bank_data js p
  step (click_revoke_consent consent_id) p = handle_revoke_consent consent_id p
  step (click_approve_org wallet) p = handle_approve_org wallet p
  step (reply i r) p = answer (get_elem? p.pending i) i r p
  step poll p = refresh_data p.user_wallet p
  step notification_timeout p = clear_notification p.timers p

  -- The page after a history of events, the newest first. Mounting runs the effect once.
  unfoldable pub page_after : List Event → Page
  unfolding step refresh_data
  page_after [] = refresh_data initial_page.user_wallet initial_page
  page_after (e ∷ es) = step e (page_after es)
