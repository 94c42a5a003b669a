-- ===== src/OpenBanking/Page.antt =====
-- The dashboard's `useState` variables, with the requests, replies and timers under way.
use Prim.Native.String as Text
use block_chain.Common.{ℕ, String, List, [], ◌∷◌, ◌++◌, ◌+◌}
use block_chain.Js.{Value, null, string, array, nil, Number, integer, pos}
use block_chain.Fetch.{Request, get_request}

pub data Persona : Type 0 where
  user tsp bank regulator : Persona

-- The five requests of `refreshData`, in their order.
pub data Stage : Type 0 where
  identity consents organizations audit_logs audit_stats : Stage

-- A handler that waits for its reply. `wallet` is the user's wallet in the closure.
pub data Job : Type 0 where
  verify_identity grant_consent revoke_consent evaluate_access fetch_bank_data approve_org :
      (wallet : String) → Job
  refresh : Stage → (wallet : String) → Job

pub record Page : Type 0 where
  pub active_persona : Persona
  pub user_wallet : String
  pub bank_wallet : String
  pub tsp_wallet : String
  pub data_type : String
  pub identity_status : Value
  pub consents : Value
  pub organizations : Value
  pub audit_logs : Value
  pub audit_stats : Value
  pub access_evaluation : Value
  pub jwt_token : Value
  pub fetched_bank_data : Value
  pub api_error : Value
  pub grant_duration : Number
  pub notification : Value
  -- Under way: the jobs that wait, the timeouts that will clear the notification, all requests.
  pub pending : List Job
  pub timers : ℕ
  pub sent : List Request

abbrev pub api_base : String
api_base = "http://127.0.0.1:8000"

abbrev pub initial_page : Page
initial_page = record {
  active_persona = user;
  user_wallet = "0x70997970C51812dc3A010C7d01b50e0d17dc79C8";
  bank_wallet = "0x3C44CdD05a57028476078453851002F133ca588a";
  tsp_wallet = "0x9965507D1a55bcC2695C58ba16FB37d819B0A4dc";
  data_type = "TRANSACTIONS";
  identity_status = null;
  consents = array nil;
  organizations = array nil;
  audit_logs = array nil;
  audit_stats = null;
  access_evaluation = null;
  jwt_token = string "";
  fetched_bank_data = null;
  api_error = string "";
  grant_duration = integer (pos 3600);
  notification = string "";
  pending = [];
  timers = 0;
  sent = [];
}

-- `fetch(…)`, and the job that waits for it.
unfoldable pub send : Request → Job → Page → Page
send request job p = record p { sent = p.sent ++ request ∷ []; pending = p.pending ++ job ∷ [] }

unfoldable pub show_notification : Value → Page → Page
show_notification msg p = record p { notification = msg; timers = p.timers + 1 }

unfoldable pub refresh_url : Stage → String → String
refresh_url identity wallet = Text.◌++◌ api_base (Text.◌++◌ "/api/identity/status/" wallet)
refresh_url consents wallet = Text.◌++◌ api_base "/api/consent/list"
refresh_url organizations wallet = Text.◌++◌ api_base "/api/organizations/list"
refresh_url audit_logs wallet = Text.◌++◌ api_base "/api/audit/logs"
refresh_url audit_stats wallet = Text.◌++◌ api_base "/api/audit/stats"

unfoldable pub send_refresh : Stage → String → Page → Page
unfolding send refresh_url
send_refresh stage wallet = send (get_request (refresh_url stage wallet)) (refresh stage wallet)

-- `refreshData()` as far as its first `await`.
unfoldable pub refresh_data : String → Page → Page
unfolding send_refresh
refresh_data wallet = send_refresh identity wallet
