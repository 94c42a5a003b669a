-- ===== src/Home/Frame.antt =====
-- The replies' handlers, beside the requests under way and the flags of the other forms.
use block_chain.Common.{String, Bool, true, false, not, ◌&&◌, ◌≡◌, inl, inr, refl, ◌∙◌, Bool-cases}
use block_chain.Js.{Engine, Error, Value, truthy}
use block_chain.Js.Effects.{Run, ◌>>=◌, lift, try_catch}
use block_chain.Js.Effects.Keeps.{
  IsPreorder, Keeps, Keeps-lift-bind, Keeps-modify-bind, try_catch-keeps, Keeps-modify, Keeps-pure,
}
use block_chain.Fetch.{Reply, response}
use block_chain.Home.Page.{
  Page, Job, register_identity, mint_asset, assign_role, audit_logs, health, connect_wallet,
  evaluate_permission,
}
use block_chain.Home.Replies.{
  show_detail, take_identity, reply_register_identity, take_asset, reply_mint_asa_asset, take_role,
  reply_assign_role, keep_logs, take_logs, reply_audit_logs, reply_health, take_address,
  reply_connect_wallet, take_decision, reply_evaluate_permission, reply_job,
}
use block_chain.Home.Kinds.{is_register, is_mint, is_assign}

-- The requests under way and the three flags are the same.
abbrev pub Same : Page → Page → Type 0
Same p q =
    (q.pending ≡ p.pending)
    × (q.registering ≡ p.registering)
    × (q.minting ≡ p.minting)
    × (q.assigning_role ≡ p.assigning_role)

Same-refl : (p : Page) → Same p p
Same-refl p = (refl, refl, refl, refl)

Same-trans : (p q r : Page) → Same p q → Same q r → Same p r
Same-trans p q r (a, b, c, d) (a', b', c', d') = (a' ∙ a, b' ∙ b, c' ∙ c, d' ∙ d)

order : IsPreorder Same
order = record { refl_R = Same-refl; trans_R = Same-trans }

-- What a reply to a request of each kind does to them.
abbrev pub Answers : Job → Page → Page → Type 0
Answers job p q =
    (q.pending ≡ p.pending)
    × (q.registering ≡ (p.registering && not (is_register job)))
    × (q.minting ≡ (p.minting && not (is_mint job)))
    × (q.assigning_role ≡ (p.assigning_role && not (is_assign job)))

and_true : (b : Bool) → b ≡ (b && not false)
and_true true = refl
and_true false = refl

and_false : (b : Bool) → false ≡ (b && not true)
and_false true = refl
and_false false = refl

-- The `finally` of the three forms.
abbrev clear : Job → Page → Page
clear register_identity q = record q { registering = false }
clear mint_asset q = record q { minting = false }
clear assign_role q = record q { assigning_role = false }
clear _ q = q

clear-Answers : (job : Job) (p q : Page) → Same p q → Answers job p (clear job q)
clear-Answers register_identity p q (a, b, c, d) =
    (a, and_false p.registering, c ∙ and_true _, d ∙ and_true _)
clear-Answers mint_asset p q (a, b, c, d) = (a, b ∙ and_true _, and_false p.minting, d ∙ and_true _)
clear-Answers assign_role p q (a, b, c, d) =
    (a, b ∙ and_true _, c ∙ and_true _, and_false p.assigning_role)
clear-Answers audit_logs p q (a, b, c, d) = (a, b ∙ and_true _, c ∙ and_true _, d ∙ and_true _)
clear-Answers health p q (a, b, c, d) = (a, b ∙ and_true _, c ∙ and_true _, d ∙ and_true _)
clear-Answers connect_wallet p q (a, b, c, d) = (a, b ∙ and_true _, c ∙ and_true _, d ∙ and_true _)
clear-Answers evaluate_permission p q (a, b, c, d) =
    (a, b ∙ and_true _, c ∙ and_true _, d ∙ and_true _)

module _ (js : Engine) where
  show_detail-Same : (title : String) (v : Value) → Keeps Same (show_detail js title v)
  unfolding show_detail
  show_detail-Same title v = Keeps-lift-bind order _ (λ d. Keeps-modify order Same-refl)

  take_identity-Same : (good : Bool) (v : Value) → Keeps Same (take_identity js good v)
  unfolding take_identity
  take_identity-Same true v =
      Keeps-modify-bind order Same-refl
        (Keeps-lift-bind order _ (λ d. Keeps-lift-bind order _ (λ h. Keeps-modify order Same-refl)))
  take_identity-Same false v = show_detail-Same _ v

  take_asset-Same : (good : Bool) (v : Value) → Keeps Same (take_asset js good v)
  unfolding take_asset
  take_asset-Same true v =
      Keeps-modify-bind order Same-refl
        (Keeps-lift-bind order _ (λ d. Keeps-lift-bind order _ (λ h. Keeps-modify order Same-refl)))
  take_asset-Same false v = Keeps-pure order _

  take_role-Same : (good : Bool) (v : Value) → Keeps Same (take_role js good v)
  unfolding take_role
  take_role-Same true v =
      Keeps-modify-bind order Same-refl
        (Keeps-lift-bind order _ (λ d. Keeps-lift-bind order _ (λ h. Keeps-modify order Same-refl)))
  take_role-Same false v = show_detail-Same _ v

  keep_logs-Same : (logs : Value) (p : Page) → Same p (keep_logs logs p)
  keep_logs-Same logs p = elim (Bool-cases (truthy logs)) [
    | inl some_logs ↦ rw some_logs (Same-refl p)
    | inr no_logs ↦ rw no_logs (Same-refl p)
  ]

  take_logs-Same : (good : Bool) (v : Value) → Keeps Same (take_logs js good v)
  unfolding take_logs
  take_logs-Same true v = Keeps-lift-bind order _ (λ l. Keeps-modify order (keep_logs-Same l))
  take_logs-Same false v = Keeps-pure order _

  take_address-Same : (given : Bool) (v : Value) → Keeps Same (take_address js given v)
  unfolding take_address
  take_address-Same true v = Keeps-modify-bind order Same-refl (
      Keeps-lift-bind order _ (λ a. Keeps-lift-bind order _ (λ b.
        Keeps-lift-bind order _
          (λ c. Keeps-lift-bind order _ (λ d. Keeps-modify order Same-refl)))))
  take_address-Same false v = Keeps-pure order _

  take_decision-Same : (v : Value) → Keeps Same (take_decision js v)
  unfolding take_decision
  take_decision-Same v = Keeps-modify-bind order Same-refl (
      Keeps-lift-bind order _ (λ a. Keeps-lift-bind order _ (λ b. Keeps-lift-bind order _ (λ c.
        Keeps-lift-bind order _
          (λ d. Keeps-lift-bind order _ (λ e. Keeps-modify order Same-refl))))))

  -- A body that awaits the reply and its JSON, and a handler that shows a toast.
  abbrev awaited :
      (Error → Page → Page) → Reply → (Bool → Value → Run Page (Unit {0})) → Page → Page
  awaited on_error reply take p =
      try_catch (do res ← lift (response reply); v ← lift res.json; take res.ok v) on_error p

  form-Answers :
      (job : Job) (on_error : Error → Page → Page) (reply : Reply)
      (take : Bool → Value → Run Page (Unit {0}))
      → ((good : Bool) (v : Value) → Keeps Same (take good v))
      → ((e : Error) (p : Page) → Same p (on_error e p))
      → (p : Page) → Answers job p (clear job (awaited on_error reply take p))
  form-Answers job on_error reply take h k p = clear-Answers job p (awaited on_error reply take p) (
      try_catch-keeps order
        (Keeps-lift-bind order _ (λ res. Keeps-lift-bind order _ (λ v. h res.ok v))) k p)

  reply_health-Same : (reply : Reply) (p : Page) → Same p (reply_health js reply p)
  unfolding reply_health
  reply_health-Same reply =
      try_catch-keeps order
        (Keeps-lift-bind order _ (λ res.
          Keeps-lift-bind order _
            (λ v. Keeps-lift-bind order _ (λ s. Keeps-modify order Same-refl))))
        (λ e. Same-refl)

  reply_connect_wallet-Same : (reply : Reply) (p : Page) → Same p (reply_connect_wallet js reply p)
  unfolding reply_connect_wallet
  reply_connect_wallet-Same reply =
      try_catch-keeps order
        (Keeps-lift-bind order _ (λ res.
          Keeps-lift-bind order _
            (λ v. Keeps-lift-bind order _ (λ a. take_address-Same (truthy a) a))))
        (λ e. Same-refl)

  pub reply_job-Answers :
      (job : Job) (reply : Reply) (p : Page) → Answers job p (reply_job js job reply p)
  unfolding reply_job reply_register_identity reply_mint_asa_asset reply_assign_role
      reply_audit_logs reply_evaluate_permission
  reply_job-Answers register_identity r p =
      form-Answers register_identity _ r (take_identity js) take_identity-Same (λ e. Same-refl) p
  reply_job-Answers mint_asset r p =
      form-Answers mint_asset _ r (take_asset js) take_asset-Same (λ e. Same-refl) p
  reply_job-Answers assign_role r p =
      form-Answers assign_role _ r (take_role js) take_role-Same (λ e. Same-refl) p
  reply_job-Answers audit_logs r p =
      form-Answers audit_logs _ r (take_logs js) take_logs-Same (λ e. Same-refl) p
  reply_job-Answers health r p =
      clear-Answers health p (reply_health js r p) (reply_health-Same r p)
  reply_job-Answers connect_wallet r p =
      clear-Answers connect_wallet p (reply_connect_wallet js r p) (reply_connect_wallet-Same r p)
  reply_job-Answers evaluate_permission r p =
      form-Answers evaluate_permission _ r (λ good. take_decision js) (λ good. take_decision-Same)
        (λ e. Same-refl) p
