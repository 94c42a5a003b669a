-- ===== src/Home/Handlers.antt =====
-- The handlers as far as their first `await`.
use Prim.Native.String as Text
use block_chain.Common.{String, true, [], none}
use block_chain.Js.{string, number, integer, pos, end, field}
use block_chain.Fetch.{get_request, post_json}
use block_chain.Home.Page.{
  Page, register_identity, mint_asset, assign_role, audit_logs, health, connect_wallet,
  evaluate_permission, send,
}

unfoldable pub handle_register_identity : Page → Page
unfolding send
handle_register_identity p =
    send
      (post_json "/v1/algorand/identities/register" (
        field "subject_did" (string p.did_input) (field "public_key" (string p.pub_key_input) end)))
      register_identity (record p { registering = true })

unfoldable pub handle_mint_asa_asset : Page → Page
unfolding send
handle_mint_asa_asset p =
    send
      (post_json "/v1/algorand/assets/mint" (
        field "asset_name" (string p.asset_name_input) (
          field "unit_name" (string p.unit_name_input) (
            field "payload_content" (string p.payload_input)
              (field "encryption_key_hex" (string p.encryption_key_input) end)))))
      mint_asset (record p { minting = true })

unfoldable pub handle_assign_role : Page → Page
unfolding send
handle_assign_role p =
    send
      (post_json "/v1/algorand/roles/assign" (
        field "account_address" (string p.role_address_input)
          (field "role_name" (string p.selected_role_input) end)))
      assign_role (record p { assigning_role = true })

unfoldable pub fetch_audit_logs : Page → Page
unfolding send
fetch_audit_logs p =
    send (get_request "/v1/algorand/audit/logs") audit_logs (record p { loading_audit_logs = true })

-- The effect that runs once.
unfoldable pub check_health : Page → Page
unfolding send
check_health p = send (get_request "/healthz") health p

unfoldable pub handle_connect_wallet : Page → Page
unfolding send
handle_connect_wallet p =
    send
      (record {
        method = "POST";
        url = "/v1/algorand/accounts/generate";
        headers = [];
        body = none;
        credentials = none;
      })
      connect_wallet p

unfoldable pub handle_evaluate_permission : String → Page → Page
unfolding send
handle_evaluate_permission permission p =
    send
      (post_json "/v1/algorand/assets/request-access" (
        field "asset_id" (number (integer (pos 1048576)))
          (field "action" (string (Text.◌++◌ permission "_ENCRYPTED_PAYLOAD")) end)))
      evaluate_permission (record p { active_permission = permission; evaluating = true })
