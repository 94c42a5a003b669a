-- ===== src/OpenBanking/Replies.antt =====
-- The handlers from their reply on.
use Prim.Native.String as Text
use block_chain.Common.{String, Bool, true, false}
use block_chain.Js.{Engine, Error, Value, string, null, or_else, get, to_text, Result}
use block_chain.Js.Effects.{Run, ◌>>=◌, ◌>>◌, lift, pure, modify, try_catch}
use block_chain.Fetch.{Reply, refused, answered, response}
use block_chain.OpenBanking.Payload.{stage_value, is_granted}
use block_chain.OpenBanking.Page.{
  Page, Job, verify_identity, grant_consent, revoke_consent, evaluate_access, fetch_bank_data,
  approve_org, refresh, Stage, identity, consents, organizations, audit_logs, audit_stats,
  send_refresh, refresh_data, show_notification,
}

abbrev pub notify_error : String → Error → Page → Page
notify_error text e = show_notification (string (Text.◌++◌ text e.message))

abbrev pub set_api_error : Value → Page → Page
set_api_error v p = record p { api_error = v }

abbrev pub set_access_evaluation : Value → Page → Page
set_access_evaluation v p = record p { access_evaluation = v }

abbrev pub set_jwt_token : Value → Page → Page
set_jwt_token v p = record p { jwt_token = v }

abbrev pub set_fetched_bank_data : Value → Page → Page
set_fetched_bank_data v p = record p { fetched_bank_data = v }

-- Each stage stores its part if the status was a success; a refused call is no error.
abbrev pub store : Stage → Value → Page → Page
store identity v p = record p { identity_status = v }
store consents v p = record p { consents = v }
store organizations v p = record p { organizations = v }
store audit_logs v p = record p { audit_logs = v }
store audit_stats v p = record p { audit_stats = v }

-- The next request of `refreshData`.
unfoldable pub next_stage : Stage → String → Page → Page
unfolding send_refresh
next_stage identity wallet p = send_refresh consents wallet p
next_stage consents wallet p = send_refresh organizations wallet p
next_stage organizations wallet p = send_refresh audit_logs wallet p
next_stage audit_logs wallet p = send_refresh audit_stats wallet p
next_stage audit_stats wallet p = p

module _ (js : Engine) where
  -- `if (res && res.ok)`, on the status and the body.
  unfoldable pub store_response : Stage → Bool → Result Value → Run Page (Unit {0})
  store_response stage true json = do
    v ← lift json
    w ← lift (stage_value js stage v)
    modify (store stage w)
  store_response stage false json = pure tt

  unfoldable pub store_reply : Stage → Reply → Run Page (Unit {0})
  unfolding store_response
  store_reply stage (refused e) = pure tt
  store_reply stage (answered res) = store_response stage res.ok res.json

  unfoldable pub reply_refresh : Stage → String → Reply → Page → Page
  unfolding store_reply next_stage
  reply_refresh stage wallet reply =
      try_catch (do store_reply stage reply; modify (next_stage stage wallet)) (λ e p. p)

  -- `showNotification(data.message || "…")`.
  unfoldable pub notify_message : String → String → Reply → Run Page (Unit {0})
  unfolding show_notification refresh_data
  notify_message default wallet reply = do
    res ← lift (response reply)
    v ← lift res.json
    message ← lift (get js v "message")
    modify (show_notification (or_else message (string default)))
    modify (refresh_data wallet)

  unfoldable pub reply_verify_identity : String → Reply → Page → Page
  unfolding notify_message
  reply_verify_identity wallet reply =
      try_catch (notify_message "Identity verified!" wallet reply)
        (notify_error "Failed to verify identity: ")

  unfoldable pub reply_grant_consent : String → Reply → Page → Page
  unfolding show_notification refresh_data
  reply_grant_consent wallet reply =
      try_catch
        (do
          res ← lift (response reply)
          v ← lift res.json
          consent ← lift (get js v "consent")
          consent_id ← lift (get js consent "consent_id")
          text ← lift (to_text js consent_id)
          modify (show_notification (string (Text.◌++◌ "Consent granted! ID: " text)))
          modify (refresh_data wallet))
        (notify_error "Error granting consent: ")

  unfoldable pub reply_revoke_consent : String → Reply → Page → Page
  unfolding notify_message
  reply_revoke_consent wallet reply =
      try_catch (notify_message "Consent revoked" wallet reply)
        (notify_error "Error revoking consent: ")

  -- The branches on `data.allowed && data.access_token`.
  unfoldable pub conclude : Value → Bool → Run Page (Unit {0})
  unfolding show_notification
  conclude v true = do
    token ← lift (get js v "access_token")
    modify (set_jwt_token token)
    modify (show_notification (string "Authorization granted! JWT Access Token generated."))
  conclude v false = do
    modify (set_jwt_token (string ""))
    reason ← lift (get js v "reason")
    text ← lift (to_text js reason)
    modify (set_api_error (string (Text.◌++◌ "Access Denied: " text)))

  unfoldable pub reply_evaluate_access : String → Reply → Page → Page
  unfolding conclude refresh_data
  reply_evaluate_access wallet reply =
      try_catch
        (do
          res ← lift (response reply)
          v ← lift res.json
          modify (set_access_evaluation v)
          granted ← lift (is_granted js v)
          conclude v granted
          modify (refresh_data wallet))
        (λ e. set_api_error (string (Text.◌++◌ "Error evaluating access: " e.message)))

  unfoldable pub take_bank_data : Bool → Value → Run Page (Unit {0})
  unfolding show_notification
  take_bank_data true v = do
    modify (set_fetched_bank_data v)
    modify (show_notification (string "Bank API data successfully retrieved!"))
  take_bank_data false v = do
    detail ← lift (get js v "detail")
    modify (set_api_error (or_else detail (string "Access Denied by Bank API")))
    modify (set_fetched_bank_data null)

  unfoldable pub reply_fetch_bank_data : String → Reply → Page → Page
  unfolding take_bank_data refresh_data
  reply_fetch_bank_data wallet reply =
      try_catch
        (do
          res ← lift (response reply)
          v ← lift res.json
          take_bank_data res.ok v
          modify (refresh_data wallet))
        (λ e. set_api_error (string (Text.◌++◌ "Bank API request failed: " e.message)))

  unfoldable pub reply_approve_org : String → Reply → Page → Page
  unfolding notify_message
  reply_approve_org wallet reply =
      try_catch (notify_message "Organization approved" wallet reply)
        (notify_error "Approve failed: ")

  -- The rest of a handler, by the job that its first part left.
  unfoldable pub reply_job : Job → Reply → Page → Page
  unfolding reply_verify_identity reply_grant_consent reply_revoke_consent reply_evaluate_access
      reply_fetch_bank_data reply_approve_org reply_refresh
  reply_job (verify_identity wallet) = reply_verify_identity wallet
  reply_job (grant_consent wallet) = reply_grant_consent wallet
  reply_job (revoke_consent wallet) = reply_revoke_consent wallet
  reply_job (evaluate_access wallet) = reply_evaluate_access wallet
  reply_job (fetch_bank_data wallet) = reply_fetch_bank_data wallet
  reply_job (approve_org wallet) = reply_approve_org wallet
  reply_job (refresh stage wallet) = reply_refresh stage wallet
