-- ===== src/OpenBanking/Notification.antt =====
-- The notification and the timeouts that clear it.
use mathlib.Core.Bool.{false≢true}
use text.Mathlib.Text.{◌==◌ as str_eq}
use block_chain.Common.{
  ℕ, zero, suc, ◌<◌, ◌+◌, String, true, false, List, [], ◌∷◌, Option, none, some, ◌≡◌, inl, inr,
  refl, arith, Bool-cases, erase_idx,
}
use block_chain.Js.{Engine, Value, string, Result, ok, thrown, truthy}
use block_chain.Js.Effects.Keeps.{Preserves, Preserves-IsPreorder}
use block_chain.Fetch.{Request, Reply}
use block_chain.OpenBanking.Page.{
  Page, Job, Stage, identity, consents, organizations, audit_logs, audit_stats, send,
  show_notification, initial_page,
}
use block_chain.OpenBanking.Handlers.{
  handle_verify_identity, handle_grant_consent, handle_revoke_consent, handle_evaluate_access,
  handle_fetch_bank_data, handle_approve_org, send_bank_request,
}
use block_chain.OpenBanking.Replies.{store}
use block_chain.OpenBanking.Events.{
  Event, type_user_wallet, click_fetch_bank_data, reply, poll, notification_timeout,
  set_user_wallet, clear_notification, answer, step, page_after,
}
use block_chain.OpenBanking.Frame.{IsFrame, authorization, on_refresh, reply_job-R}

-- A notification is shown only while a timeout is under way.
abbrev pub IsTimed : Page → Type 0
IsTimed p = truthy p.notification ≡ true → 0 < p.timers

IsTimed-send :
    (r : Request) (job : Job) (p : Page)
    → authorization r ≡ none
    → Preserves IsTimed p (send r job p)
unfolding send
IsTimed-send r job p h t = t

IsTimed-notify : (v : Value) (p : Page) → Preserves IsTimed p (show_notification v p)
unfolding show_notification
IsTimed-notify v p t shown = omega arith

IsTimed-store : (stage : Stage) (v : Value) (p : Page) → Preserves IsTimed p (store stage v p)
IsTimed-store identity v p t = t
IsTimed-store consents v p t = t
IsTimed-store organizations v p t = t
IsTimed-store audit_logs v p t = t
IsTimed-store audit_stats v p t = t

IsTimed-IsFrame : IsFrame (Preserves IsTimed)
IsTimed-IsFrame = record {
  order = Preserves-IsPreorder IsTimed;
  on_send = IsTimed-send;
  on_notify = IsTimed-notify;
  on_store = IsTimed-store;
  on_api_error = λ v p t. t;
  on_bank_data = λ v p t. t;
  on_evaluation = λ v p t. t;
}

clear-IsTimed : (n : ℕ) (p : Page) → p.timers ≡ n → IsTimed p → IsTimed (clear_notification n p)
unfolding clear_notification
clear-IsTimed zero p e t = t
clear-IsTimed (suc n) p e t = λ shown. absurd (false≢true shown)

wallet-IsTimed : (w : String) (p : Page) → IsTimed p → IsTimed (set_user_wallet w p)
unfolding set_user_wallet
wallet-IsTimed w p t = elim (Bool-cases (str_eq w p.user_wallet)) [
  | inl same ↦ rw same t
  | inr other ↦ rw other (on_refresh IsTimed-IsFrame w (record p { user_wallet = w }) t)
]

send_bank-IsTimed : (r : Result String) (p : Page) → IsTimed p → IsTimed (send_bank_request r p)
unfolding send_bank_request
send_bank-IsTimed (ok token) p t = t
send_bank-IsTimed (thrown e) p t = t

-- So many timeouts, after a history.
abbrev pub timeouts : ℕ → List Event → List Event
timeouts zero es = es
timeouts (suc n) es = notification_timeout ∷ timeouts n es

module _ (js : Engine) where
  fetch-IsTimed : (p : Page) → IsTimed p → IsTimed (handle_fetch_bank_data js p)
  unfolding handle_fetch_bank_data
  fetch-IsTimed p t = elim (Bool-cases (truthy p.jwt_token)) [
    | inr no_token ↦ rw no_token t
    | inl token ↦ rw token (send_bank-IsTimed _ (record p { api_error = string "" }) t)
  ]

  answer-IsTimed :
      (o : Option Job) (i : ℕ) (r : Reply) (p : Page) → IsTimed p → IsTimed (answer js o i r p)
  unfolding answer
  answer-IsTimed none i r p t = t
  answer-IsTimed (some job) i r p t =
      reply_job-R IsTimed-IsFrame js (λ v p t. t) job r
        (record p { pending = erase_idx p.pending i }) t

  step-IsTimed : (e : Event) (p : Page) → IsTimed p → IsTimed (step js e p)
  unfolding step handle_verify_identity handle_grant_consent handle_evaluate_access
      handle_revoke_consent handle_approve_org
  step-IsTimed (type_user_wallet w) p t = wallet-IsTimed w p t
  step-IsTimed click_fetch_bank_data p t = fetch-IsTimed p t
  step-IsTimed (reply i r) p t = answer-IsTimed _ i r p t
  step-IsTimed poll p t = on_refresh IsTimed-IsFrame p.user_wallet p t
  step-IsTimed notification_timeout p t = clear-IsTimed p.timers p refl t
  step-IsTimed _ p t = t

  -- After any history, a notification is shown only while a timeout that clears it is under way.
  pub page_after-IsTimed : (es : List Event) → IsTimed (page_after js es)
  unfolding page_after
  page_after-IsTimed [] =
      on_refresh IsTimed-IsFrame initial_page.user_wallet initial_page (λ h. absurd (false≢true h))
  page_after-IsTimed (e ∷ es) = step-IsTimed e (page_after js es) (page_after-IsTimed es)

  timeout-timers :
      (p : Page) (n : ℕ) → p.timers ≡ suc n → (step js notification_timeout p).timers ≡ n
  unfolding step
  timeout-timers p n e = rw (e, clear_notification)

  expire :
      (k : ℕ) (es : List Event) (n : ℕ)
      → (page_after js es).timers ≡ n + k
      → (page_after js (timeouts k es)).timers ≡ n
  unfolding page_after
  expire zero es n h = omega arith
  expire (suc k) es n h =
      timeout-timers (page_after js (timeouts k es)) n (expire k es (suc n) (omega arith))

  -- Whatever happened before, once the timeouts under way have passed no notification is shown.
  pub page_after-timeouts-hidden :
      (es : List Event)
      → truthy (page_after js (timeouts (page_after js es).timers es)).notification ≡ false
  page_after-timeouts-hidden es =
      let done = expire (page_after js es).timers es 0 (omega arith) in
      let timed = page_after-IsTimed (timeouts (page_after js es).timers es) in
      elim (Bool-cases
        (truthy (page_after js (timeouts (page_after js es).timers es)).notification)) [
          | inr hidden ↦ hidden
          | inl shown ↦ absurd (omega (arith, timed shown))
        ]

-- While an older timeout is under way, a new message is cleared by it: the first timeout to pass
-- empties the notification, and as many timeouts are left as before the message, its own among them.
pub show_notification-timeout :
    (js : Engine) (v : Value) (p : Page) {n : ℕ}
    → p.timers ≡ suc n
    → let q = step js notification_timeout (show_notification v p) in
      (q.notification ≡ string "") × (q.timers ≡ suc n)
unfolding step show_notification
show_notification-timeout js v p {n} e =
    let two : p.timers + 1 ≡ suc (suc n) = omega arith in rw (two, clear_notification) (refl, refl)
