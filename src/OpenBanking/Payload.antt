-- ===== src/OpenBanking/Payload.antt =====
-- What the handlers read out of a reply's payload.
use block_chain.Common.{String, Bool, false, if◌then◌else◌}
use block_chain.Js.{Engine, Value, array, nil, truthy, or_else, get, Result, ok, ◌>>=◌}
use block_chain.OpenBanking.Page.{Stage, identity, consents, organizations, audit_logs, audit_stats}

module _ (js : Engine) where
  -- `data.consents || []` and the like.
  unfoldable pub list_of : String → Value → Result Value
  list_of key v = do found ← get js v key; ok (or_else found (array nil))

  -- What a stage of `refreshData` stores of its payload.
  unfoldable pub stage_value : Stage → Value → Result Value
  unfolding list_of
  stage_value identity v = ok v
  stage_value consents v = list_of "consents" v
  stage_value organizations v = list_of "organizations" v
  stage_value audit_logs v = list_of "audit_logs" v
  stage_value audit_stats v = ok v

  -- `data.allowed && data.access_token`, as a condition.
  unfoldable pub is_granted : Value → Result Bool
  is_granted v = do
    allowed ← get js v "allowed"
    if truthy allowed then (do token ← get js v "access_token"; ok (truthy token)) else ok false
