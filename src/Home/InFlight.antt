-- ===== src/Home/InFlight.antt =====
-- The forms' flags and the requests under way, over any session.
use text.Mathlib.Text.{◌==◌ as str_eq}
use block_chain.Common.{
  ℕ, String, Bool, true, false, not, ◌&&◌, List, [], ◌∷◌, ◌++◌, some, ◌≡◌, refl, sym, ◌∙◌, ap, ◌+◌,
  arith, get_elem?, erase_idx, Option-cases, inl, inr, if◌then◌else◌,
}
use block_chain.Js.{Engine}
use block_chain.Fetch.{Reply}
use block_chain.Home.Page.{
  Page, Job, register_identity, mint_asset, assign_role, audit_logs, connect_wallet,
  evaluate_permission, send,
}
use block_chain.Home.Handlers.{
  handle_register_identity, handle_mint_asa_asset, handle_assign_role, fetch_audit_logs,
  check_health, handle_connect_wallet, handle_evaluate_permission,
}
use block_chain.Home.Replies.{reply_job}
use block_chain.Home.Events.{
  Event, reply, submit_identity, submit_asset, submit_role, toggle_menu, scroll_to, press_key,
  type_did, type_pub_key, type_asset_name, type_unit_name, type_payload, type_encryption_key,
  type_role_address, choose_role, open_modal, close_modal, open_event_explorer, click_permission,
  click_dialog_permission, answer, step, page_after,
}
use block_chain.Home.Kinds.{
  bit, count, is_register, is_mint, is_assign, count-append, count-erase_idx, count-answered,
}
use block_chain.Home.Frame.{reply_job-Answers}

-- One request of a kind is under way if its flag is set, and none otherwise.
abbrev pub Tells : (Job → Bool) → List Job → Bool → Type 0
Tells kind jobs flag = count kind jobs ≡ bit flag

abbrev pub InFlight : Page → Type 0
InFlight p =
    Tells is_register p.pending p.registering
    × Tells is_mint p.pending p.minting
    × Tells is_assign p.pending p.assigning_role

Tells-send :
    (kind : Job → Bool) (jobs : List Job) (job : Job) (flag next : Bool)
    → Tells kind jobs flag
    → bit flag + bit (kind job) ≡ bit next
    → Tells kind (jobs ++ job ∷ []) next
Tells-send kind jobs job flag next h k = omega (arith, count-append kind jobs (job ∷ []))

Tells-answer :
    (kind : Job → Bool) (jobs : List Job) (i : ℕ) (job : Job) (flag : Bool)
    → get_elem? jobs i ≡ some job
    → Tells kind jobs flag
    → Tells kind (erase_idx jobs i) (flag && not (kind job))
Tells-answer kind jobs i job flag e h =
    count-answered (kind job) flag _ _ (count-erase_idx kind jobs i e) h

Tells-subst :
    (kind : Job → Bool) (xs ys : List Job) (a b : Bool)
    → ys ≡ xs
    → b ≡ a
    → Tells kind xs a
    → Tells kind ys b
Tells-subst kind xs ys a b e f h = ap (count kind) e ∙ (h ∙ ap bit (sym f))

-- A request that is of none of the three kinds.
InFlight-other :
    (jobs : List Job) (job : Job) (a b c : Bool)
    → is_register job ≡ false
    → is_mint job ≡ false
    → is_assign job ≡ false
    → Tells is_register jobs a × Tells is_mint jobs b × Tells is_assign jobs c
    → Tells is_register (jobs ++ job ∷ []) a
      × Tells is_mint (jobs ++ job ∷ []) b
      × Tells is_assign (jobs ++ job ∷ []) c
InFlight-other jobs job a b c no_a no_b no_c (h, k, l) = (
  Tells-send is_register jobs job a a h (rw no_a (omega arith)),
  Tells-send is_mint jobs job b b k (rw no_b (omega arith)),
  Tells-send is_assign jobs job c c l (rw no_c (omega arith)),
)

unless-InFlight :
    (flag : Bool) (p q : Page)
    → InFlight p
    → (flag ≡ false → InFlight q)
    → InFlight (if flag then p else q)
unless-InFlight true p q h k = h
unless-InFlight false p q h k = k refl

handle_register_identity-InFlight :
    (p : Page) → InFlight p → p.registering ≡ false → InFlight (handle_register_identity p)
unfolding handle_register_identity send
handle_register_identity-InFlight p (h, k, l) off = (
  Tells-send is_register p.pending register_identity p.registering true h (rw off (omega arith)),
  Tells-send is_mint p.pending register_identity p.minting p.minting k (omega arith),
  Tells-send is_assign p.pending register_identity p.assigning_role p.assigning_role l
      (omega arith),
)

handle_mint_asa_asset-InFlight :
    (p : Page) → InFlight p → p.minting ≡ false → InFlight (handle_mint_asa_asset p)
unfolding handle_mint_asa_asset send
handle_mint_asa_asset-InFlight p (h, k, l) off = (
  Tells-send is_register p.pending mint_asset p.registering p.registering h (omega arith),
  Tells-send is_mint p.pending mint_asset p.minting true k (rw off (omega arith)),
  Tells-send is_assign p.pending mint_asset p.assigning_role p.assigning_role l (omega arith),
)

handle_assign_role-InFlight :
    (p : Page) → InFlight p → p.assigning_role ≡ false → InFlight (handle_assign_role p)
unfolding handle_assign_role send
handle_assign_role-InFlight p (h, k, l) off = (
  Tells-send is_register p.pending assign_role p.registering p.registering h (omega arith),
  Tells-send is_mint p.pending assign_role p.minting p.minting k (omega arith),
  Tells-send is_assign p.pending assign_role p.assigning_role true l (rw off (omega arith)),
)

handle_evaluate_permission-InFlight :
    (permission : String) (p : Page)
    → InFlight p
    → InFlight (handle_evaluate_permission permission p)
unfolding handle_evaluate_permission send
handle_evaluate_permission-InFlight permission p h =
    InFlight-other p.pending evaluate_permission _ _ _ refl refl refl h

fetch_audit_logs-InFlight : (p : Page) → InFlight p → InFlight (fetch_audit_logs p)
unfolding fetch_audit_logs send
fetch_audit_logs-InFlight p h = InFlight-other p.pending audit_logs _ _ _ refl refl refl h

handle_connect_wallet-InFlight : (p : Page) → InFlight p → InFlight (handle_connect_wallet p)
unfolding handle_connect_wallet send
handle_connect_wallet-InFlight p h = InFlight-other p.pending connect_wallet _ _ _ refl refl refl h

module _ (js : Engine) where
  reply_job-InFlight :
      (job : Job) (i : ℕ) (r : Reply) (p : Page)
      → get_elem? p.pending i ≡ some job
      → InFlight p
      → InFlight (reply_job js job r (record p { pending = erase_idx p.pending i }))
  reply_job-InFlight job i r p e (h, k, l) =
      let (w, a, b, c) =
        reply_job-Answers js job r (record p { pending = erase_idx p.pending i }) in
      (
        Tells-subst is_register _ _ _ _ w a (Tells-answer is_register p.pending i job _ e h),
        Tells-subst is_mint _ _ _ _ w b (Tells-answer is_mint p.pending i job _ e k),
        Tells-subst is_assign _ _ _ _ w c (Tells-answer is_assign p.pending i job _ e l),
      )

  answer-InFlight :
      (i : ℕ) (r : Reply) (p : Page)
      → InFlight p
      → InFlight (answer js (get_elem? p.pending i) i r p)
  unfolding answer
  answer-InFlight i r p h = elim (Option-cases (get_elem? p.pending i)) [
    | inl e ↦ rw e h
    | inr (job, e) ↦ rw e (reply_job-InFlight job i r p e h)
  ]

  step-InFlight : (e : Event) (p : Page) → InFlight p → InFlight (step js e p)
  unfolding step
  step-InFlight (reply i r) p h = answer-InFlight i r p h
  step-InFlight submit_identity p h =
      unless-InFlight p.registering p _ h (handle_register_identity-InFlight p h)
  step-InFlight submit_asset p h =
      unless-InFlight p.minting p _ h (handle_mint_asa_asset-InFlight p h)
  step-InFlight submit_role p h =
      unless-InFlight p.assigning_role p _ h (handle_assign_role-InFlight p h)
  step-InFlight (click_permission permission) p h =
      unless-InFlight p.evaluating p _ h (λ off. handle_evaluate_permission-InFlight permission p h)
  step-InFlight (click_dialog_permission permission) p h =
      handle_evaluate_permission-InFlight permission p h
  step-InFlight open_event_explorer p h =
      fetch_audit_logs-InFlight (record p { active_modal = some "audit" }) h
  step-InFlight Event.connect_wallet p h = handle_connect_wallet-InFlight p h
  step-InFlight (press_key key) p h =
      unless-InFlight (str_eq key "Escape") (record p { identity_detail_open = false }) p h
        (λ off. h)
  step-InFlight toggle_menu p h = h
  step-InFlight (scroll_to y) p h = h
  step-InFlight (type_did s) p h = h
  step-InFlight (type_pub_key s) p h = h
  step-InFlight (type_asset_name s) p h = h
  step-InFlight (type_unit_name s) p h = h
  step-InFlight (type_payload s) p h = h
  step-InFlight (type_encryption_key s) p h = h
  step-InFlight (type_role_address s) p h = h
  step-InFlight (choose_role s) p h = h
  step-InFlight (open_modal name) p h = h
  step-InFlight close_modal p h = h

  -- Over any session, of each form's request exactly one is under way while the form's flag disables
  -- its button, and none while it does not: a form is never submitted twice at once, and its button
  -- is never left disabled once the reply has come.
  pub page_after-InFlight : (history : List Event) → InFlight (page_after js history)
  unfolding page_after check_health send
  page_after-InFlight [] = (refl, refl, refl)
  page_after-InFlight (e ∷ es) = step-InFlight e (page_after js es) (page_after-InFlight es)
