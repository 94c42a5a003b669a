-- ===== src/OpenBanking/Authorization.antt =====
-- The authorization headers that the dashboard sends over a session.
use Prim.Native.String as Text
use block_chain.Common.{
  ℕ, zero, suc, String, true, List, [], ◌∷◌, ◌++◌, Option, none, some, ◌≡◌, ◌⊎◌, inl, inr, refl,
  sym, ap, ◌∙◌, All, All-append, erase_idx, Bool-cases,
}
use mathlib.Core.Path.{subst}
use mathlib.Core.List.{append-nil}
use text.Mathlib.Text.{◌==◌ as str_eq}
use block_chain.Js.{Engine, Value, string, Result, ok, thrown, truthy, to_text}
use block_chain.Fetch.{Request, Reply}
use block_chain.OpenBanking.Page.{Page, Job, verify_identity}
use block_chain.OpenBanking.Handlers.{
  handle_verify_identity, handle_grant_consent, handle_revoke_consent, handle_evaluate_access,
  handle_fetch_bank_data, handle_approve_org, send_bank_request, bank_request,
}
use block_chain.OpenBanking.Events.{
  Event, show_persona, type_user_wallet, choose_bank, type_tsp, choose_data_type, choose_duration,
  click_verify_identity, click_grant_consent, click_evaluate_access, click_fetch_bank_data,
  click_revoke_consent, click_approve_org, reply, poll, notification_timeout, set_user_wallet,
  clear_notification, answer, step, page_after,
}
use block_chain.OpenBanking.Frame.{authorization, on_refresh, reply_job-R}
use block_chain.OpenBanking.Sent.{Extends, Extends-IsPreorder, Extends-IsFrame}
use block_chain.OpenBanking.Provenance.{GrantedIn, page_after-jwt_token}

module _ (js : Engine) where
  abbrev dropped : ℕ → Page → Page
  dropped i p = record p { pending = erase_idx p.pending i }

  -- The request bears no authorization, or that of the token.
  abbrev Bears : Value → Request → Type 0
  Bears token r =
      (authorization r ≡ none)
      ⊎ ((text : String) × (truthy token ≡ true)
          × (to_text js token ≡ ok text)
          × (authorization r ≡ some (Text.◌++◌ "Bearer " text)))

  abbrev SentStep : Page → Page → Type 0
  SentStep p q = (rs : List Request) × (q.sent ≡ p.sent ++ rs) × All (Bears p.jwt_token) rs

  weaken :
      (token : Value) (rs : List Request)
      → All (λ r. authorization r ≡ none) rs
      → All (Bears token) rs
  weaken token [] h = tt
  weaken token (r ∷ rs) h = (inl h.0, weaken token rs h.1)

  Extends-sent : (p q : Page) → Extends p q → SentStep p q
  Extends-sent p q (rs, e, h) = (rs, e, weaken p.jwt_token rs h)

  send_bank-sent :
      (p q : Page) (t : Result String)
      → q.sent ≡ p.sent
      → truthy p.jwt_token ≡ true
      → to_text js p.jwt_token ≡ t
      → SentStep p (send_bank_request t q)
  unfolding send_bank_request
  send_bank-sent p q (thrown e) same h at_t = ([], same ∙ sym (append-nil p.sent), tt)
  send_bank-sent p q (ok text) same h at_t = (
    bank_request q.data_type text ∷ [],
    ap (λ l. l ++ bank_request q.data_type text ∷ []) same,
    (inr (text, h, at_t, refl), tt),
  )

  fetch-sent : (p : Page) → SentStep p (handle_fetch_bank_data js p)
  unfolding handle_fetch_bank_data
  fetch-sent p = elim (Bool-cases (truthy p.jwt_token)) [
    | inr no_t ↦ rw no_t ([], sym (append-nil p.sent), tt)
    | inl yes_t ↦ rw yes_t (send_bank-sent p (record p { api_error = string "" }) _ refl yes_t refl)
  ]

  answer-sent : (i : ℕ) (r : Reply) (p : Page) (o : Option Job) → Extends p (answer js o i r p)
  unfolding answer
  answer-sent i r p none = Extends-IsPreorder.refl_R p
  answer-sent i r p (some job) =
      reply_job-R Extends-IsFrame js (λ v. Extends-IsPreorder.refl_R) job r (dropped i p)

  wallet-sent : (w : String) (p : Page) → Extends p (set_user_wallet w p)
  unfolding set_user_wallet
  wallet-sent w p = elim (Bool-cases (str_eq w p.user_wallet)) [
    | inl same ↦ rw same (Extends-IsPreorder.refl_R p)
    | inr other ↦ rw other (on_refresh Extends-IsFrame w (record p { user_wallet = w }))
  ]

  clear-sent : (n : ℕ) (p : Page) → Extends p (clear_notification n p)
  unfolding clear_notification
  clear-sent zero p = Extends-IsPreorder.refl_R p
  clear-sent (suc n) p = Extends-IsPreorder.refl_R p

  step-sent : (e : Event) (p : Page) → SentStep p (step js e p)
  unfolding step handle_verify_identity handle_grant_consent handle_evaluate_access
      handle_revoke_consent handle_approve_org
  step-sent (show_persona persona) p =
      Extends-sent p (step js (show_persona persona) p) (Extends-IsPreorder.refl_R p)
  step-sent (type_user_wallet w) p =
      Extends-sent p (step js (type_user_wallet w) p) (wallet-sent w p)
  step-sent (choose_bank w) p =
      Extends-sent p (step js (choose_bank w) p) (Extends-IsPreorder.refl_R p)
  step-sent (type_tsp w) p = Extends-sent p (step js (type_tsp w) p) (Extends-IsPreorder.refl_R p)
  step-sent (choose_data_type d) p =
      Extends-sent p (step js (choose_data_type d) p) (Extends-IsPreorder.refl_R p)
  step-sent (choose_duration n) p =
      Extends-sent p (step js (choose_duration n) p) (Extends-IsPreorder.refl_R p)
  step-sent click_verify_identity p =
      Extends-sent p (step js click_verify_identity p)
        (Extends-IsFrame.on_send _ (verify_identity "") p refl)
  step-sent click_grant_consent p =
      Extends-sent p (step js click_grant_consent p)
        (Extends-IsFrame.on_send _ (verify_identity "") p refl)
  step-sent click_evaluate_access p =
      Extends-sent p (step js click_evaluate_access p)
        (Extends-IsFrame.on_send _ (verify_identity "") p refl)
  step-sent click_fetch_bank_data p = fetch-sent p
  step-sent (click_revoke_consent c) p =
      Extends-sent p (step js (click_revoke_consent c) p)
        (Extends-IsFrame.on_send _ (verify_identity "") p refl)
  step-sent (click_approve_org w) p =
      Extends-sent p (step js (click_approve_org w) p)
        (Extends-IsFrame.on_send _ (verify_identity "") p refl)
  step-sent (reply i r) p = Extends-sent p (step js (reply i r) p) (answer-sent i r p _)
  step-sent poll p = Extends-sent p (step js poll p) (on_refresh Extends-IsFrame _ p)
  step-sent notification_timeout p =
      Extends-sent p (step js notification_timeout p) (clear-sent p.timers p)

  -- A request that bears an authorization bears a token that the history granted.
  abbrev pub Authorized : List Event → Request → Type 0
  Authorized es r =
      (authorization r ≡ none)
      ⊎ ((token : Value) × (text : String) × GrantedIn js token es
          × (to_text js token ≡ ok text)
          × (authorization r ≡ some (Text.◌++◌ "Bearer " text)))

  later :
      (e : Event) (es : List Event) (rs : List Request)
      → All (Authorized es) rs
      → All (Authorized (e ∷ es)) rs
  later e es [] h = tt
  later e es (r ∷ rs) (inl free, h) = (inl free, later e es rs h)
  later e es (r ∷ rs) (inr (token, text, granted, t, a), h) =
      (inr (token, text, inr granted, t, a), later e es rs h)

  bearing :
      (e : Event) (es : List Event) (rs : List Request)
      → All (Bears (page_after js es).jwt_token) rs
      → All (Authorized (e ∷ es)) rs
  bearing e es [] h = tt
  bearing e es (r ∷ rs) (inl free, h) = (inl free, bearing e es rs h)
  bearing e es (r ∷ rs) (inr (text, is_token, t, a), h) = (
    inr ((page_after js es).jwt_token, text, inr (page_after-jwt_token js es is_token), t, a),
    bearing e es rs h,
  )

  -- After any history, each request that the dashboard has sent either bears no authorization, or
  -- bears "Bearer " and the text of a token that a reply to an evaluation had granted before.
  pub page_after-sent : (es : List Event) → All (Authorized es) (page_after js es).sent
  unfolding page_after
  page_after-sent [] = (inl refl, tt)
  page_after-sent (e ∷ es) =
      let (rs, is_sent, h) = step-sent e (page_after js es) in
      subst (All (Authorized (e ∷ es))) (sym is_sent) (
        All-append (Authorized (e ∷ es)) (page_after js es).sent rs
          (later e es _ (page_after-sent es)) (bearing e es rs h))
