-- ===== src/Home/Page.antt =====
-- The page's `useState` variables, with the toasts shown and the requests that wait for a reply.
use block_chain.Common.{String, Bool, false, List, [], ◌∷◌, ◌++◌, Option, none}
use block_chain.Js.{Value, null, array, nil}
use block_chain.Fetch.{Request}

-- `toast.success(title, { description })`, `toast.error(title)`.
pub data Toast : Type 0 where
  success : (title : String) → (description : String) → Toast
  error : (title : String) → Toast

-- A handler that waits for its reply; `evaluate_permission` for one permission's.
pub data Job : Type 0 where
  register_identity mint_asset assign_role audit_logs health connect_wallet evaluate_permission :
      Job

pub record Page : Type 0 where
  pub menu_open : Bool
  pub active_permission : String
  pub has_scrolled : Bool
  pub identity_detail_open : Bool
  pub api_online : Bool
  pub algo_address : Value
  pub live_decision : Value
  pub evaluating : Bool
  pub did_input : String
  pub pub_key_input : String
  pub registered_identity : Value
  pub registering : Bool
  pub asset_name_input : String
  pub unit_name_input : String
  pub payload_input : String
  pub encryption_key_input : String
  pub minted_asset : Value
  pub minting : Bool
  pub active_modal : Option String
  pub role_address_input : String
  pub selected_role_input : String
  pub assigned_role : Value
  pub assigning_role : Bool
  pub audit_logs_list : Value
  pub loading_audit_logs : Bool
  pub toasts : List Toast
  pub pending : List Job
  pub sent : List Request

abbrev pub initial_page : Page
initial_page = record {
  menu_open = false;
  active_permission = "READ";
  has_scrolled = false;
  identity_detail_open = false;
  api_online = false;
  algo_address = null;
  live_decision = null;
  evaluating = false;
  did_input = "did:secure:alice-001";
  pub_key_input = "0xa1b2c3d4e5f67890123456789abcdef0123456789abcdef0123456789abcdef0";
  registered_identity = null;
  registering = false;
  asset_name_input = "Confidential Asset #1";
  unit_name_input = "CAS1";
  payload_input = "Quarterly security audit clearance token";
  encryption_key_input = "0123456789abcdef0123456789abcdef0123456789abcdef0123456789abcdef";
  minted_asset = null;
  minting = false;
  active_modal = none;
  role_address_input = "VSNVEBRZC3RV4XYZ7890ABCDEF1234567890";
  selected_role_input = "ADMIN_ROLE";
  assigned_role = null;
  assigning_role = false;
  audit_logs_list = array nil;
  loading_audit_logs = false;
  toasts = [];
  pending = [];
  sent = [];
}

-- `fetch(…)`, and the job that waits for it.
unfoldable pub send : Request → Job → Page → Page
send request job p = record p { sent = p.sent ++ request ∷ []; pending = p.pending ++ job ∷ [] }

abbrev pub show_toast : Toast → Page → Page
show_toast t p = record p { toasts = p.toasts ++ t ∷ [] }
