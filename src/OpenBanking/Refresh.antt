-- ===== src/OpenBanking/Refresh.antt =====
-- `refreshData`: a reply at each of its stages, and its five requests in a row.
use Prim.Native.String as Text
use block_chain.Common.{
  ℕ, length, get_elem?-append, erase_idx-append, Option, none, some, String, true, false, List, [],
  ◌∷◌, ◌++◌, ◌≡◌, ◌⊎◌, inl, inr, refl, sym, ap, ◌∙◌, Bool-cases,
}
use mathlib.Core.List.{append_assoc, append-nil}
use block_chain.Js.{
  Engine, Value, array, nil, get, or_else, Result, ok, thrown, returns, throws, Result-cases,
}
use block_chain.Js.Effects.{try_catch}
use block_chain.Fetch.{Request, Reply, refused, answered, get_request}
use block_chain.OpenBanking.Page.{
  Page, refresh, Stage, identity, consents, organizations, audit_logs, audit_stats, refresh_url,
  refresh_data, api_base,
}
use block_chain.OpenBanking.Payload.{list_of, stage_value}
use block_chain.OpenBanking.Replies.{store, next_stage, reply_refresh, reply_job}
use block_chain.OpenBanking.Events.{reply, answer, step}

append_five :
    {A : Type 0} (s : List A) (a b c d e : A)
    → ((((s ++ a ∷ []) ++ b ∷ []) ++ c ∷ []) ++ d ∷ []) ++ e ∷ [] ≡ s ++ a ∷ b ∷ c ∷ d ∷ e ∷ []
append_five s a b c d e = simp append_assoc

-- What a stage keeps its part in.
abbrev stored : Stage → Page → Value
stored identity p = p.identity_status
stored consents p = p.consents
stored organizations p = p.organizations
stored audit_logs p = p.audit_logs
stored audit_stats p = p.audit_stats

store-stored : (stage : Stage) (p : Page) → store stage (stored stage p) p ≡ p
store-stored identity p = refl
store-stored consents p = refl
store-stored organizations p = refl
store-stored audit_logs p = refl
store-stored audit_stats p = refl

-- The page after a stage, by its part: the next request goes out, or the round is over.
settle : Stage → String → Result Value → Page → Page
settle stage wallet (ok v) p = next_stage stage wallet (store stage v p)
settle stage wallet (thrown e) p = p

-- The requests of a round for a wallet, in order.
abbrev pub round_requests : String → List Request
round_requests wallet =
    get_request (Text.◌++◌ api_base (Text.◌++◌ "/api/identity/status/" wallet))
    ∷ get_request (Text.◌++◌ api_base "/api/consent/list")
    ∷ get_request (Text.◌++◌ api_base "/api/organizations/list")
    ∷ get_request (Text.◌++◌ api_base "/api/audit/logs")
    ∷ get_request (Text.◌++◌ api_base "/api/audit/stats")
    ∷ []

-- The key of a stage's list in its payload, if it does not store the payload whole.
abbrev key_of : Stage → Option String
key_of identity = none
key_of consents = some "consents"
key_of organizations = some "organizations"
key_of audit_logs = some "audit_logs"
key_of audit_stats = none

module _ (js : Engine) where
  -- The part after a reply: a refused call and a failing status leave it, a success that parses
  -- replaces it, and anything else is thrown.
  unfoldable part_after : Stage → Reply → Value → Result Value
  part_after stage (refused e) old = ok old
  part_after stage (answered r) old = elim r.ok [
    | false ↦ ok old
    | true ↦ elim r.json [ ok v ↦ stage_value js stage v | thrown e ↦ thrown e ]
  ]

  -- A stage's reply, on every branch: the part is kept or replaced and the next request of the round
  -- goes out, or, if the body does not parse or is no record, nothing changes and the round ends.
  reply_refresh_lem :
      (stage : Stage) (wallet : String) (r : Reply) (p : Page)
      → reply_refresh js stage wallet r p
        ≡ settle stage wallet (part_after stage r (stored stage p)) p
  unfolding reply_refresh try_catch settle part_after
  reply_refresh_lem stage wallet (refused e) p =
      ap (next_stage stage wallet) (sym (store-stored stage p))
  reply_refresh_lem stage wallet (answered r) p = elim (Bool-cases r.ok) [
    | inr bad ↦ rw bad (ap (next_stage stage wallet) (sym (store-stored stage p)))
    | inl good ↦ rw good (elim (Result-cases r.json) [
      | throws e j ↦ rw j refl
      | returns v j ↦ rw j (elim (Result-cases (stage_value js stage v)) [
        | throws e s ↦ rw s refl
        | returns w s ↦ rw s refl
      ])
    ])
  ]

  -- The value is what the payload has under the key, or an empty list if that is falsy; without a key it is
  -- the whole payload.
  abbrev pub IsPart : Option String → Value → Value → Type 0
  IsPart none payload v = v ≡ payload
  IsPart (some key) payload v =
      (found : Value) × (get js payload key ≡ ok found) × (v ≡ or_else found (array nil))

  -- What is kept under a reply: a refused call and a failing status leave the old value, and a success
  -- whose body can be read replaces it.
  abbrev pub IsAfter : Option String → Reply → Value → Value → Type 0
  IsAfter key (refused e) old v = v ≡ old
  IsAfter key (answered r) old v =
      ((r.ok ≡ false) × (v ≡ old))
      ⊎ ((payload : Value) × (r.ok ≡ true) × (r.json ≡ ok payload) × IsPart key payload v)

  stage_value-IsPart :
      (stage : Stage) (payload v : Value)
      → IsPart (key_of stage) payload v
      → stage_value js stage payload ≡ ok v
  unfolding stage_value list_of
  stage_value-IsPart identity payload v h = ap ok (sym h)
  stage_value-IsPart consents payload v (found, at_key, same) = rw (at_key, same) refl
  stage_value-IsPart organizations payload v (found, at_key, same) = rw (at_key, same) refl
  stage_value-IsPart audit_logs payload v (found, at_key, same) = rw (at_key, same) refl
  stage_value-IsPart audit_stats payload v h = ap ok (sym h)

  part_after-IsAfter :
      (stage : Stage) (r : Reply) (old v : Value)
      → IsAfter (key_of stage) r old v
      → part_after stage r old ≡ ok v
  unfolding part_after
  part_after-IsAfter stage (refused e) old v h = ap ok (sym h)
  part_after-IsAfter stage (answered r) old v (inl (bad, same)) = rw bad (ap ok (sym same))
  part_after-IsAfter stage (answered r) old v (inr (payload, good, json, part)) =
      rw (good, json) (stage_value-IsPart stage payload v part)

  -- Five events, each the reply to the n-th request under way; the first reply is the oldest.
  abbrev pub round : ℕ → Reply → Reply → Reply → Reply → Reply → Page → Page
  round n r₁ r₂ r₃ r₄ r₅ p =
      step js (reply n r₅) (
        step js (reply n r₄) (step js (reply n r₃) (step js (reply n r₂) (step js (reply n r₁) p))))

  step-refresh :
      (stage : Stage) (wallet : String) (r : Reply) (p : Page) (v : Value)
      → IsAfter (key_of stage) r (stored stage p) v
      → step js
          (reply (length p.pending) r)
          (record p { pending = p.pending ++ refresh stage wallet ∷ [] })
        ≡ next_stage stage wallet (store stage v p)
  unfolding step answer reply_job settle
  step-refresh stage wallet r p v h =
      rw
        (
          get_elem?-append p.pending (refresh stage wallet) [],
          erase_idx-append p.pending (refresh stage wallet) [],
          append-nil p.pending,
        )
        (reply_refresh_lem stage wallet r p
          ∙ ap (λ o. settle stage wallet o p) (part_after-IsAfter stage r (stored stage p) v h))

  -- A round of `refreshData` that starts with any requests under way and whose five requests are answered
  -- one after the other with nothing in between, each refused, with a failing status, or with a success
  -- whose body can be read: the five requests go out in order, each of the five parts is kept (refused or
  -- failing) or replaced by what its own reply holds, under "consents", "organizations" and "audit_logs"
  -- or as a whole, and all else is as it was, with the requests that were under way before.
  pub round-refresh_data :
      (wallet : String) (p : Page) (r₁ r₂ r₃ r₄ r₅ : Reply) (v₁ v₂ v₃ v₄ v₅ : Value)
      → IsAfter none r₁ p.identity_status v₁
      → IsAfter (some "consents") r₂ p.consents v₂
      → IsAfter (some "organizations") r₃ p.organizations v₃
      → IsAfter (some "audit_logs") r₄ p.audit_logs v₄
      → IsAfter none r₅ p.audit_stats v₅
      → round (length p.pending) r₁ r₂ r₃ r₄ r₅ (refresh_data wallet p) ≡ record p {
        identity_status = v₁;
        consents = v₂;
        organizations = v₃;
        audit_logs = v₄;
        audit_stats = v₅;
        sent = p.sent ++ round_requests wallet;
      }
  unfolding refresh_data next_stage
  round-refresh_data wallet p r₁ r₂ r₃ r₄ r₅ v₁ v₂ v₃ v₄ v₅ e₁ e₂ e₃ e₄ e₅ =
      let n = length p.pending in
      let request = λ (stage : Stage). get_request (refresh_url stage wallet) in
      let s₁ = p.sent ++ request identity ∷ [] in
      let s₂ = s₁ ++ request consents ∷ [] in
      let s₃ = s₂ ++ request organizations ∷ [] in
      let s₄ = s₃ ++ request audit_logs ∷ [] in
      let p₁ = record p { sent = s₁ } in
      let p₂ = record p { identity_status = v₁; sent = s₂ } in
      let p₃ = record p { identity_status = v₁; consents = v₂; sent = s₃ } in
      let p₄ = record p { identity_status = v₁; consents = v₂; organizations = v₃; sent = s₄ } in
      let p₅ = record p {
        identity_status = v₁;
        consents = v₂;
        organizations = v₃;
        audit_logs = v₄;
        sent = s₄ ++ request audit_stats ∷ [];
      } in
      ap
        (λ q.
          step js (reply n r₅)
            (step js (reply n r₄) (step js (reply n r₃) (step js (reply n r₂) q))))
        (step-refresh identity wallet r₁ p₁ v₁ e₁)
      ∙ ap (λ q. step js (reply n r₅) (step js (reply n r₄) (step js (reply n r₃) q)))
          (step-refresh consents wallet r₂ p₂ v₂ e₂)
      ∙ ap (λ q. step js (reply n r₅) (step js (reply n r₄) q))
          (step-refresh organizations wallet r₃ p₃ v₃ e₃)
      ∙ ap (step js (reply n r₅)) (step-refresh audit_logs wallet r₄ p₄ v₄ e₄)
      ∙ step-refresh audit_stats wallet r₅ p₅ v₅ e₅
      ∙ ap
          (λ s. record p {
            identity_status = v₁;
            consents = v₂;
            organizations = v₃;
            audit_logs = v₄;
            audit_stats = v₅;
            sent = s;
          })
          (append_five p.sent _ _ _ _ _)
