-- ===== src/OpenBanking/Provenance.antt =====
-- The dashboard's access token over a session.
use block_chain.Common.{
  ℕ, zero, suc, String, true, List, [], ◌∷◌, Option, none, some, ◌≡◌, ◌⊎◌, inl, inr, refl, sym,
  get_elem?, erase_idx, Bool-cases,
}
use mathlib.Core.Bool.{false≢true}
use mathlib.Core.Path.{subst}
use text.Mathlib.Text.{◌==◌ as str_eq}
use block_chain.Js.{Engine, Value, string, truthy, to_text, returns, throws, Result-cases}
use block_chain.Fetch.{Reply}
use block_chain.OpenBanking.Page.{
  Page, Job, verify_identity, grant_consent, revoke_consent, evaluate_access, fetch_bank_data,
  approve_org, refresh,
}
use block_chain.OpenBanking.Handlers.{handle_fetch_bank_data}
use block_chain.OpenBanking.Replies.{reply_job}
use block_chain.OpenBanking.Events.{
  Event, show_persona, type_user_wallet, choose_bank, type_tsp, choose_data_type, choose_duration,
  click_verify_identity, click_grant_consent, click_evaluate_access, click_fetch_bank_data,
  click_revoke_consent, click_approve_org, reply, poll, notification_timeout, set_user_wallet,
  clear_notification, answer, step, page_after,
}
use block_chain.OpenBanking.Frame.{
  reply_refresh-R, reply_verify_identity-R, reply_revoke_consent-R, reply_approve_org-R,
  reply_grant_consent-R, reply_fetch_bank_data-R,
}
use block_chain.OpenBanking.Sent.{SameToken-IsFrame}
use block_chain.OpenBanking.Token.{Grants, reply_evaluate_access-token}

module _ (js : Engine) where
  -- The event is the reply to a waiting evaluation, and grants the token.
  pub record GrantedBy (e : Event) (p : Page) (token : Value) : Type 0 where
    pub index : ℕ
    pub answer : Reply
    pub wallet : String
    pub is_reply : e ≡ reply index answer
    pub was_waiting : get_elem? p.pending index ≡ some (evaluate_access wallet)
    pub grants : Grants js answer token

  -- Some event of the history granted the token.
  abbrev pub GrantedIn : Value → List Event → Type 0
  GrantedIn token [] = ⊥
  GrantedIn token (e ∷ es) = GrantedBy e (page_after js es) token ⊎ GrantedIn token es

  abbrev TokenStep : Event → Page → Page → Type 0
  TokenStep e p q =
      (q.jwt_token ≡ p.jwt_token) ⊎ (q.jwt_token ≡ string "") ⊎ GrantedBy e p q.jwt_token

  abbrev dropped : ℕ → Page → Page
  dropped i p = record p { pending = erase_idx p.pending i }

  answer-token :
      (i : ℕ) (r : Reply) (p : Page) (o : Option Job)
      → get_elem? p.pending i ≡ o
      → TokenStep (reply i r) p (answer js o i r p)
  unfolding answer reply_job
  answer-token i r p none at_i = inl refl
  answer-token i r p (some (verify_identity w)) at_i =
      inl (reply_verify_identity-R SameToken-IsFrame js w r (dropped i p))
  answer-token i r p (some (grant_consent w)) at_i =
      inl (reply_grant_consent-R SameToken-IsFrame js w r (dropped i p))
  answer-token i r p (some (revoke_consent w)) at_i =
      inl (reply_revoke_consent-R SameToken-IsFrame js w r (dropped i p))
  answer-token i r p (some (evaluate_access w)) at_i =
      elim (reply_evaluate_access-token js w r (dropped i p)) [
        | inl (unread, kept) ↦ inl kept
        | inr (inl (denied, emptied)) ↦ inr (inl emptied)
        | inr (inr grants) ↦ inr (
            inr (record {
              index = i;
              answer = r;
              wallet = w;
              is_reply = refl;
              was_waiting = at_i;
              grants = grants;
            }))
      ]
  answer-token i r p (some (fetch_bank_data w)) at_i =
      inl (reply_fetch_bank_data-R SameToken-IsFrame js w r (dropped i p))
  answer-token i r p (some (approve_org w)) at_i =
      inl (reply_approve_org-R SameToken-IsFrame js w r (dropped i p))
  answer-token i r p (some (refresh stage w)) at_i =
      inl (reply_refresh-R SameToken-IsFrame js stage w r (dropped i p))

  fetch-token : (p : Page) → (handle_fetch_bank_data js p).jwt_token ≡ p.jwt_token
  unfolding handle_fetch_bank_data
  fetch-token p = elim (Bool-cases (truthy p.jwt_token)) [
    | inr no_t ↦ rw no_t
    | inl yes_t ↦ rw yes_t (elim (Result-cases (to_text js p.jwt_token)) [
      | throws e at_t ↦ rw at_t
      | returns t at_t ↦ rw at_t
    ])
  ]

  wallet-token : (w : String) (p : Page) → (set_user_wallet w p).jwt_token ≡ p.jwt_token
  unfolding set_user_wallet
  wallet-token w p = elim (Bool-cases (str_eq w p.user_wallet)) [
    | inl same ↦ rw same
    | inr other ↦ rw other
  ]

  clear-token : (n : ℕ) (p : Page) → (clear_notification n p).jwt_token ≡ p.jwt_token
  unfolding clear_notification
  clear-token zero p = refl
  clear-token (suc n) p = refl

  step-token : (e : Event) (p : Page) → TokenStep e p (step js e p)
  unfolding step
  step-token (show_persona persona) p = inl refl
  step-token (type_user_wallet w) p = inl (wallet-token w p)
  step-token (choose_bank w) p = inl refl
  step-token (type_tsp w) p = inl refl
  step-token (choose_data_type d) p = inl refl
  step-token (choose_duration n) p = inl refl
  step-token click_verify_identity p = inl refl
  step-token click_grant_consent p = inl refl
  step-token click_evaluate_access p = inl refl
  step-token click_fetch_bank_data p = inl (fetch-token p)
  step-token (click_revoke_consent c) p = inl refl
  step-token (click_approve_org w) p = inl refl
  step-token (reply i r) p = answer-token i r p _ refl
  step-token poll p = inl refl
  step-token notification_timeout p = inl (clear-token p.timers p)

  -- After any history of events, a truthy token is one that an earlier reply to an evaluation
  -- granted, with a truthy `allowed` beside it.
  pub page_after-jwt_token :
      (es : List Event)
      → truthy (page_after js es).jwt_token ≡ true
      → GrantedIn (page_after js es).jwt_token es
  unfolding page_after
  page_after-jwt_token [] h = absurd (false≢true h)
  page_after-jwt_token (e ∷ es) h = elim (step-token e (page_after js es)) [
    | inl kept ↦ inr (
        subst (λ t. GrantedIn t es) (sym kept)
          (page_after-jwt_token es (subst (λ t. truthy t ≡ true) kept h)))
    | inr (inl emptied) ↦ absurd (false≢true (subst (λ t. truthy t ≡ true) emptied h))
    | inr (inr granted) ↦ inl granted
  ]
