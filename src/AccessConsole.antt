-- ===== src/AccessConsole.antt =====
-- apps/web/src/components/AccessControlConsole.tsx: the console's state and its one handler.
pub mod Outcomes
mod Tests
use Prim.Native.String as Text
use block_chain.Common.{String, Bool, true, false, List, [], ◌∷◌, ◌++◌, if◌then◌else◌}
use block_chain.Js.{
  Engine, Error, Value, null, string, number, Number, integer, pos, end, field, is_text, get, get?,
  to_text, Result,
}
use block_chain.Js.Effects.{Run, ◌>>=◌, ◌>>◌, lift, modify, try_catch}
use block_chain.Fetch.{Request, post_json, Reply, response}
use block_chain.Home.Page.{Toast, success, error}

-- `sent` holds the requests, of which some wait for a reply.
pub record Console : Type 0 where
  pub permission : String
  pub asset_id : Number
  pub evaluating : Bool
  pub decision : Value
  pub toasts : List Toast
  pub sent : List Request

abbrev pub initial_console : Console
initial_console = record {
  permission = "READ";
  asset_id = integer (pos 1048576);
  evaluating = false;
  decision = null;
  toasts = [];
  sent = [];
}

-- `handleEvaluate` as far as its `await`.
unfoldable pub handle_evaluate : String → Console → Console
handle_evaluate selected c = record c {
  permission = selected;
  evaluating = true;
  sent =
      c.sent
      ++ post_json "/v1/algorand/assets/request-access" (
          field "asset_id" (number c.asset_id)
            (field "action" (string (Text.◌++◌ selected "_ENCRYPTED_PAYLOAD")) end))
        ∷ [];
}

abbrev pub set_decision : Value → Console → Console
set_decision v c = record c { decision = v }

abbrev pub add_toast : Toast → Console → Console
add_toast t c = record c { toasts = c.toasts ++ t ∷ [] }

-- `setAssetId(Number(…))`.
abbrev pub set_asset_id : Number → Console → Console
set_asset_id n c = record c { asset_id = n }

-- A permission's button and the button to evaluate again are disabled while a request is under way.
unfoldable pub click_permission : String → Console → Console
unfolding handle_evaluate
click_permission selected c = if c.evaluating then c else handle_evaluate selected c

unfoldable pub click_evaluate : Console → Console
unfolding click_permission
click_evaluate c = click_permission c.permission c

module _ (js : Engine) where
  -- The branches on `data.decision === "GRANTED"`.
  unfoldable pub announce : Value → Bool → Run Console (Unit {0})
  announce v true = do
    proof ← lift (get js v "proof")
    log ← lift (get? js proof "on_chain_log")
    text ← lift (to_text js log)
    modify (add_toast (success "Access GRANTED by PyTeal Contract!" (Text.◌++◌ "Log Proof: " text)))
  announce v false = modify (add_toast (error "Access DENIED by PyTeal Policy!"))

  -- `handleEvaluate` from its reply on.
  unfoldable pub reply_evaluate : Reply → Console → Console
  unfolding announce
  reply_evaluate reply c =
      let d =
        try_catch
          (do
            res ← lift (response reply)
            v ← lift res.json
            modify (set_decision v)
            decision ← lift (get js v "decision")
            announce v (is_text decision "GRANTED"))
          (λ e. add_toast (error "Failed to query Access Decision Engine")) c in
      record d { evaluating = false }
