-- ===== src/OpenBanking/Handlers.antt =====
-- The handlers as far as their first `await`.
use Prim.Native.String as Text
use text.Mathlib.Text.{◌==◌ as str_eq}
use block_chain.Common.{String, [], ◌∷◌, none, if◌then◌else◌}
use block_chain.Js.{
  Engine, Error, Value, string, null, number, end, field, truthy, to_text, Result, ok, thrown,
}
use block_chain.Fetch.{Request, post_json}
use block_chain.OpenBanking.Page.{
  Page, verify_identity, grant_consent, revoke_consent, evaluate_access, fetch_bank_data,
  approve_org, api_base, send,
}

abbrev pub api_url : String → String
api_url path = Text.◌++◌ api_base path

unfoldable pub handle_verify_identity : Page → Page
unfolding send
handle_verify_identity p =
    send
      (post_json (api_url "/api/identity/verify")
        (field "wallet_address" (string p.user_wallet) end))
      (verify_identity p.user_wallet) p

unfoldable pub handle_grant_consent : Page → Page
unfolding send
handle_grant_consent p =
    send
      (post_json (api_url "/api/consent/grant") (
        field "user_wallet" (string p.user_wallet) (
          field "bank_wallet" (string p.bank_wallet) (
            field "tsp_wallet" (string p.tsp_wallet) (
              field "data_type" (string p.data_type)
                (field "duration_seconds" (number p.grant_duration) end))))))
      (grant_consent p.user_wallet) p

unfoldable pub handle_revoke_consent : Value → Page → Page
unfolding send
handle_revoke_consent consent_id p =
    send
      (post_json (api_url "/api/consent/revoke")
        (field "consent_id" consent_id (field "user_wallet" (string p.user_wallet) end)))
      (revoke_consent p.user_wallet) p

unfoldable pub handle_evaluate_access : Page → Page
unfolding send
handle_evaluate_access p =
    send
      (post_json (api_url "/api/access/evaluate") (
        field "user_wallet" (string p.user_wallet) (
          field "bank_wallet" (string p.bank_wallet) (
            field "tsp_wallet" (string p.tsp_wallet)
              (field "data_type" (string p.data_type) end)))))
      (evaluate_access p.user_wallet) (record p { api_error = string ""; fetched_bank_data = null })

-- The address of the bank's API for a data type.
unfoldable pub bank_endpoint : String → String
bank_endpoint data_type =
    if str_eq data_type "TRANSACTIONS"
    then api_url "/api/banks/bank-a/transactions/acc_banka_101"
    else api_url "/api/banks/bank-a/accounts"

unfoldable pub bank_request : String → String → Request
unfolding bank_endpoint
bank_request data_type token = record {
  method = "GET";
  url = bank_endpoint data_type;
  headers = ("Authorization", Text.◌++◌ "Bearer " token) ∷ [];
  body = none;
  credentials = none;
}

abbrev pub bank_request_failed : Error → Page → Page
bank_request_failed e p = record p {
  api_error = string (Text.◌++◌ "Bank API request failed: " e.message);
}

-- The request is sent once the token has been written into its header.
unfoldable pub send_bank_request : Result String → Page → Page
unfolding bank_request send
send_bank_request (ok token) p =
    send (bank_request p.data_type token) (fetch_bank_data p.user_wallet) p
send_bank_request (thrown e) p = bank_request_failed e p

module _ (js : Engine) where
  unfoldable pub handle_fetch_bank_data : Page → Page
  unfolding send_bank_request
  handle_fetch_bank_data p =
      if truthy p.jwt_token
      then send_bank_request (to_text js p.jwt_token) (record p { api_error = string "" })
      else record p { api_error = string "No JWT Access Token available. Request token first." }

unfoldable pub handle_approve_org : Value → Page → Page
unfolding send
handle_approve_org wallet p =
    send (post_json (api_url "/api/organizations/approve") (field "wallet_address" wallet end))
      (approve_org p.user_wallet) p
