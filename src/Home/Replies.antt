-- ===== src/Home/Replies.antt =====
-- The handlers from their reply on.
use Prim.Native.String as Text
use block_chain.Common.{String, Bool, true, false, if◌then◌else◌}
use block_chain.Js.{
  Engine, Value, string, truthy, or_else, is_text, get, get?, to_text, slice_to, slice_from_end,
}
use block_chain.Js.Effects.{Run, ◌>>=◌, ◌>>◌, lift, pure, modify, try_catch}
use block_chain.Fetch.{Reply, response}
use block_chain.Home.Texts.{text_of, hash_start}
use block_chain.Home.Page.{
  Page, success, error, Job, register_identity, mint_asset, assign_role, audit_logs, health,
  connect_wallet, evaluate_permission, show_toast,
}

abbrev pub set_registered_identity : Value → Page → Page
set_registered_identity v p = record p { registered_identity = v }

abbrev pub set_minted_asset : Value → Page → Page
set_minted_asset v p = record p { minted_asset = v }

abbrev pub set_assigned_role : Value → Page → Page
set_assigned_role v p = record p { assigned_role = v }

abbrev pub set_audit_logs_list : Value → Page → Page
set_audit_logs_list v p = record p { audit_logs_list = v }

abbrev pub set_api_online : Bool → Page → Page
set_api_online b p = record p { api_online = b }

abbrev pub set_algo_address : Value → Page → Page
set_algo_address v p = record p { algo_address = v }

abbrev pub set_live_decision : Value → Page → Page
set_live_decision v p = record p { live_decision = v }

abbrev pub keep_logs : Value → Page → Page
keep_logs logs p = if truthy logs then set_audit_logs_list logs p else p

-- The texts of two properties with what stands before each of them.
abbrev pub join_two : String → String → String → String → String
join_two a x b y = Text.◌++◌ a (Text.◌++◌ x (Text.◌++◌ b y))

module _ (js : Engine) where
  -- `toast.error(…: ${data.detail})`.
  unfoldable pub show_detail : String → Value → Run Page (Unit {0})
  show_detail title v = do
    detail ← lift (text_of js v "detail")
    modify (show_toast (error (Text.◌++◌ title detail)))

  unfoldable pub take_identity : Bool → Value → Run Page (Unit {0})
  unfolding show_detail
  take_identity true v = do
    modify (set_registered_identity v)
    did ← lift (text_of js v "did")
    hash ← lift (hash_start js v)
    modify (
        show_toast (
          success "Identity Registered On-Chain!"
            (join_two "DID: " did " | Hash: " (Text.◌++◌ hash "..."))))
  take_identity false v = show_detail "Registration Failed: " v

  unfoldable pub reply_register_identity : Reply → Page → Page
  unfolding take_identity
  reply_register_identity reply p =
      let q =
        try_catch (do res ← lift (response reply); v ← lift res.json; take_identity res.ok v)
          (λ e. show_toast (error "Failed to connect to Identity Registry PyTeal contract")) p in
      record q { registering = false }

  unfoldable pub take_asset : Bool → Value → Run Page (Unit {0})
  take_asset true v = do
    modify (set_minted_asset v)
    asset_id ← lift (text_of js v "asset_id")
    unit_name ← lift (text_of js v "unit_name")
    modify (
        show_toast (
          success "ASA Digital Asset Minted!"
            (join_two "Asset ID: #" asset_id " | Unit: " unit_name)))
  take_asset false v = pure tt

  unfoldable pub reply_mint_asa_asset : Reply → Page → Page
  unfolding take_asset
  reply_mint_asa_asset reply p =
      let q =
        try_catch (do res ← lift (response reply); v ← lift res.json; take_asset res.ok v)
          (λ e. show_toast (error "Failed to connect to Asset Vault PyTeal contract")) p in
      record q { minting = false }

  unfoldable pub take_role : Bool → Value → Run Page (Unit {0})
  unfolding show_detail
  take_role true v = do
    modify (set_assigned_role v)
    role ← lift (text_of js v "role")
    tx_id ← lift (text_of js v "tx_id")
    modify
        (show_toast (success "Role Assigned On-Chain!" (join_two "Role: " role " | TxID: " tx_id)))
  take_role false v = show_detail "Role Assignment Failed: " v

  unfoldable pub reply_assign_role : Reply → Page → Page
  unfolding take_role
  reply_assign_role reply p =
      let q =
        try_catch (do res ← lift (response reply); v ← lift res.json; take_role res.ok v)
          (λ e. show_toast (error "Failed to connect to Role Manager PyTeal contract")) p in
      record q { assigning_role = false }

  -- `if (res.ok && data.logs)`.
  unfoldable pub take_logs : Bool → Value → Run Page (Unit {0})
  take_logs true v = do logs ← lift (get js v "logs"); modify (keep_logs logs)
  take_logs false v = pure tt

  unfoldable pub reply_audit_logs : Reply → Page → Page
  unfolding take_logs
  reply_audit_logs reply p =
      let q =
        try_catch (do res ← lift (response reply); v ← lift res.json; take_logs res.ok v)
          (λ e. show_toast (error "Failed to fetch live audit logs from backend")) p in
      record q { loading_audit_logs = false }

  unfoldable pub reply_health : Reply → Page → Page
  reply_health reply =
      try_catch
        (do
          res ← lift (response reply)
          v ← lift res.json
          status ← lift (get js v "status")
          modify (set_api_online (is_text status "ok")))
        (λ e. set_api_online false)

  unfoldable pub take_address : Bool → Value → Run Page (Unit {0})
  take_address true address = do
    modify (set_algo_address address)
    first ← lift (slice_to js address 8)
    first_text ← lift (to_text js first)
    last ← lift (slice_from_end js address 6)
    last_text ← lift (to_text js last)
    modify (
        show_toast
          (success "Algorand Account Connected!" (join_two "Address: " first_text "..." last_text)))
  take_address false address = pure tt

  unfoldable pub reply_connect_wallet : Reply → Page → Page
  unfolding take_address
  reply_connect_wallet reply =
      try_catch
        (do
          res ← lift (response reply)
          v ← lift res.json
          address ← lift (get js v "address")
          take_address (truthy address) address)
        (λ e. show_toast (error "Failed to connect Algorand backend service"))

  unfoldable pub take_decision : Value → Run Page (Unit {0})
  take_decision v = do
    modify (set_live_decision v)
    decision ← lift (text_of js v "decision")
    tx_id ← lift (text_of js v "tx_id")
    proof ← lift (get js v "proof")
    log ← lift (get? js proof "on_chain_log")
    log_text ← lift (to_text js (or_else log (string "GRANTED")))
    modify (
        show_toast (
          success (Text.◌++◌ "Access Request Evaluated: " decision)
            (join_two "TxID: " tx_id " | Log: " log_text)))

  unfoldable pub reply_evaluate_permission : Reply → Page → Page
  unfolding take_decision
  reply_evaluate_permission reply p =
      let q =
        try_catch (do res ← lift (response reply); v ← lift res.json; take_decision v)
          (λ e. show_toast (error "Failed to evaluate access decision on Algorand contract")) p in
      record q { evaluating = false }

  unfoldable pub reply_job : Job → Reply → Page → Page
  unfolding reply_register_identity reply_mint_asa_asset reply_assign_role reply_audit_logs
      reply_health reply_connect_wallet reply_evaluate_permission
  reply_job register_identity = reply_register_identity
  reply_job mint_asset = reply_mint_asa_asset
  reply_job assign_role = reply_assign_role
  reply_job audit_logs = reply_audit_logs
  reply_job health = reply_health
  reply_job connect_wallet = reply_connect_wallet
  reply_job evaluate_permission = reply_evaluate_permission
