-- ===== src/OpenBanking/Frame.antt =====
-- The handlers from the reply on, for relations between the pages before and after that each
-- assignment keeps.
use block_chain.Common.{
  String, Bool, true, false, List, [], ◌∷◌, Option, none, some, ◌≡◌, refl, if◌then◌else◌,
}
use text.Mathlib.Text.{◌==◌ as str_eq}
use block_chain.Js.{Engine, Value, string, null, Result}
use block_chain.Js.Effects.Keeps.{
  IsPreorder, Keeps, Keeps-bind, Keeps-lift-bind, Keeps-modify-bind, try_catch-keeps, Keeps-modify,
  Keeps-pure,
}
use block_chain.Fetch.{Request, Reply, refused, answered}
use block_chain.OpenBanking.Page.{
  Page, Job, verify_identity, grant_consent, revoke_consent, evaluate_access, fetch_bank_data,
  approve_org, refresh, Stage, identity, consents, organizations, audit_logs, audit_stats, send,
  refresh_data, show_notification,
}
use block_chain.OpenBanking.Replies.{
  store, next_stage, store_response, store_reply, reply_refresh, notify_message,
  reply_verify_identity, reply_grant_consent, reply_revoke_consent, take_bank_data,
  reply_fetch_bank_data, reply_approve_org, conclude, reply_evaluate_access, reply_job,
  set_api_error, set_jwt_token, set_fetched_bank_data, set_access_evaluation,
}

abbrev header : String → List (String × String) → Option String
header key [] = none
header key ((k, v) ∷ rest) = if str_eq k key then some v else header key rest

abbrev pub authorization : Request → Option String
authorization r = header "Authorization" r.headers

-- A preorder that holds of the assignments, and of a request with no authorization. Of the token's
-- assignment it is asked apart: only an evaluation makes it.
pub record IsFrame (R : Page → Page → Type 0) : Type 0 where
  pub order : IsPreorder R
  pub on_send : (r : Request) (job : Job) (p : Page) → authorization r ≡ none → R p (send r job p)
  pub on_notify : (v : Value) (p : Page) → R p (show_notification v p)
  pub on_store : (stage : Stage) (v : Value) (p : Page) → R p (store stage v p)
  pub on_api_error : (v : Value) (p : Page) → R p (set_api_error v p)
  pub on_bank_data : (v : Value) (p : Page) → R p (set_fetched_bank_data v p)
  pub on_evaluation : (v : Value) (p : Page) → R p (set_access_evaluation v p)

module _ {R : Page → Page → Type 0} (frame : IsFrame R) where
  open frame use {order, on_send, on_notify, on_store, on_api_error, on_bank_data, on_evaluation}

  pub on_refresh : (wallet : String) (p : Page) → R p (refresh_data wallet p)
  unfolding refresh_data
  on_refresh wallet p = on_send _ _ p refl

  on_next : (stage : Stage) (wallet : String) (p : Page) → R p (next_stage stage wallet p)
  unfolding next_stage
  on_next identity wallet p = on_send _ _ p refl
  on_next consents wallet p = on_send _ _ p refl
  on_next organizations wallet p = on_send _ _ p refl
  on_next audit_logs wallet p = on_send _ _ p refl
  on_next audit_stats wallet p = order.refl_R p

module _ {R : Page → Page → Type 0} (frame : IsFrame R) (js : Engine) where
  open frame use {order, on_send, on_notify, on_store, on_api_error, on_bank_data, on_evaluation}

  store_response-R :
      (stage : Stage) (good : Bool) (json : Result Value)
      → Keeps R (store_response js stage good json)
  unfolding store_response
  store_response-R stage false json = Keeps-pure order _
  store_response-R stage true json =
      Keeps-lift-bind order _
        (λ v. Keeps-lift-bind order _ (λ w. Keeps-modify order (on_store stage w)))

  store_reply-R : (stage : Stage) (reply : Reply) → Keeps R (store_reply js stage reply)
  unfolding store_reply
  store_reply-R stage (refused e) = Keeps-pure order _
  store_reply-R stage (answered res) = store_response-R stage res.ok res.json

  pub reply_refresh-R :
      (stage : Stage) (wallet : String) (reply : Reply) (p : Page)
      → R p (reply_refresh js stage wallet reply p)
  unfolding reply_refresh
  reply_refresh-R stage wallet reply =
      try_catch-keeps order
        (Keeps-bind order (store_reply-R stage reply)
          (λ _. Keeps-modify order (on_next frame stage wallet)))
        (λ e p. order.refl_R p)

  notify_message-R :
      (default wallet : String) (reply : Reply) → Keeps R (notify_message js default wallet reply)
  unfolding notify_message
  notify_message-R default wallet reply = Keeps-lift-bind order _ (λ res.
      Keeps-lift-bind order _ (λ v. Keeps-lift-bind order _ (λ m.
        Keeps-modify-bind order (on_notify _) (Keeps-modify order (on_refresh frame wallet)))))

  pub reply_verify_identity-R :
      (wallet : String) (reply : Reply) (p : Page) → R p (reply_verify_identity js wallet reply p)
  unfolding reply_verify_identity
  reply_verify_identity-R wallet reply =
      try_catch-keeps order (notify_message-R _ wallet reply) (λ e. on_notify _)

  pub reply_revoke_consent-R :
      (wallet : String) (reply : Reply) (p : Page) → R p (reply_revoke_consent js wallet reply p)
  unfolding reply_revoke_consent
  reply_revoke_consent-R wallet reply =
      try_catch-keeps order (notify_message-R _ wallet reply) (λ e. on_notify _)

  pub reply_approve_org-R :
      (wallet : String) (reply : Reply) (p : Page) → R p (reply_approve_org js wallet reply p)
  unfolding reply_approve_org
  reply_approve_org-R wallet reply =
      try_catch-keeps order (notify_message-R _ wallet reply) (λ e. on_notify _)

  pub reply_grant_consent-R :
      (wallet : String) (reply : Reply) (p : Page) → R p (reply_grant_consent js wallet reply p)
  unfolding reply_grant_consent
  reply_grant_consent-R wallet reply =
      try_catch-keeps order
        (Keeps-lift-bind order _ (λ res. Keeps-lift-bind order _ (λ v. Keeps-lift-bind order _ (λ c.
          Keeps-lift-bind order _ (λ id. Keeps-lift-bind order _ (λ t.
            Keeps-modify-bind order (on_notify _)
              (Keeps-modify order (on_refresh frame wallet))))))))
        (λ e. on_notify _)

  take_bank_data-R : (good : Bool) (v : Value) → Keeps R (take_bank_data js good v)
  unfolding take_bank_data
  take_bank_data-R true v =
      Keeps-modify-bind order (on_bank_data v) (Keeps-modify order (on_notify _))
  take_bank_data-R false v =
      Keeps-lift-bind order _
        (λ d. Keeps-modify-bind order (on_api_error _) (Keeps-modify order (on_bank_data null)))

  pub reply_fetch_bank_data-R :
      (wallet : String) (reply : Reply) (p : Page) → R p (reply_fetch_bank_data js wallet reply p)
  unfolding reply_fetch_bank_data
  reply_fetch_bank_data-R wallet reply =
      try_catch-keeps order
        (Keeps-lift-bind order _ (λ res. Keeps-lift-bind order _ (λ v.
          Keeps-bind order (take_bank_data-R res.ok v)
            (λ _. Keeps-modify order (on_refresh frame wallet)))))
        (λ e. on_api_error _)

  module _ (on_token : (v : Value) (p : Page) → R p (set_jwt_token v p)) where
    conclude-R : (v : Value) (granted : Bool) → Keeps R (conclude js v granted)
    unfolding conclude
    conclude-R v true =
        Keeps-lift-bind order _
          (λ t. Keeps-modify-bind order (on_token t) (Keeps-modify order (on_notify _)))
    conclude-R v false = Keeps-modify-bind order (on_token (string "")) (
        Keeps-lift-bind order _
          (λ r. Keeps-lift-bind order _ (λ t. Keeps-modify order (on_api_error _))))

    pub reply_evaluate_access-R :
        (wallet : String) (reply : Reply) (p : Page) → R p (reply_evaluate_access js wallet reply p)
    unfolding reply_evaluate_access
    reply_evaluate_access-R wallet reply =
        try_catch-keeps order
          (Keeps-lift-bind order _ (λ res. Keeps-lift-bind order _ (λ v.
            Keeps-modify-bind order (on_evaluation v) (
              Keeps-lift-bind order _ (λ g.
                Keeps-bind order (conclude-R v g)
                  (λ _. Keeps-modify order (on_refresh frame wallet)))))))
          (λ e. on_api_error _)

    -- What an answered event does to the page, from its job's removal on.
    pub reply_job-R : (job : Job) (reply : Reply) (p : Page) → R p (reply_job js job reply p)
    unfolding reply_job
    reply_job-R (verify_identity w) r = reply_verify_identity-R w r
    reply_job-R (grant_consent w) r = reply_grant_consent-R w r
    reply_job-R (revoke_consent w) r = reply_revoke_consent-R w r
    reply_job-R (evaluate_access w) r = reply_evaluate_access-R w r
    reply_job-R (fetch_bank_data w) r = reply_fetch_bank_data-R w r
    reply_job-R (approve_org w) r = reply_approve_org-R w r
    reply_job-R (refresh stage w) r = reply_refresh-R stage w r
