-- ===== src/AuditApi/Client.antt =====
-- lib/api.ts: `listAuditEvents`, from the configured base address to the accepted events.
use Prim.Native.String as Text
use Prim.Native.Char.{code}
use text.Mathlib.TextLemmas.{cons≢nil}
use mathlib.Core.Bool.{false≢true}
use text.Mathlib.Text.{◌==◌ as str_eq}
use text.Mathlib.TextEquality.{eq_iff, Char-path}
use block_chain.Common.{
  String, true, List, Option, none, some, ◌≡◌, ◌≢◌, ◌↔◌, ◌⊎◌, inl, inr, refl, sym, ap, ◌∙◌, arith,
  Bool-cases, ◌==◌,
}
use block_chain.Js.{Engine, Value, object, array, Fields, Items, ok, returns, throws, Result-cases}
use block_chain.Fetch.{Response, Reply, refused, answered}
use block_chain.AuditApi.{
  AuditEvent, Call, fails, sends, Filters, prop, is_audit_response, check_payload, read_reply,
  list_audit_events, api_base_url, trim, drop_final_slash,
}
use block_chain.AuditApi.Payload.{IsContract, is_audit_response_iff}

-- The call sends a request, and returns this value when the reply comes.
abbrev pub Returns : Call → Reply → Value → Type 0
Returns (fails e) reply v = ⊥
Returns (sends r k) reply v = k reply ≡ ok v

abbrev pub IsFailing : Call → Type 0
IsFailing (fails e) = Unit
IsFailing (sends r k) = ⊥

-- A successful status, and a body that parses to this payload.
abbrev pub AnsweredWith : Reply → Value → Type 0
AnsweredWith reply payload =
    (r : Response) × (reply ≡ answered r) × (r.ok ≡ true) × (r.json ≡ ok payload)

-- The value is the array of events of an answer that keeps the contract.
abbrev pub AcceptedEvents : Reply → Value → Type 0
AcceptedEvents reply v =
    (fs : Fields) × (vs : Items) × (es : List AuditEvent) × AnsweredWith reply (object fs)
    × IsContract fs vs es
    × (v ≡ array vs)

abbrev pub IsConfigured : Option String → Type 0
IsConfigured none = ⊥
IsConfigured (some base) = base ≢ ""

prop-events :
    (fs : Fields) {vs : Items} {es : List AuditEvent}
    → IsContract fs vs es
    → prop (object fs) "events" ≡ array vs
unfolding prop
prop-events fs c = rw c.events

drop_final_slash_empty : (s : String) → drop_final_slash s ≡ "" → (s ≡ "") ⊎ (s ≡ "/")
unfolding drop_final_slash
drop_final_slash_empty Text.[] h = inl refl
drop_final_slash_empty (Text.◌∷◌ c Text.[]) h = elim (Bool-cases (code c == b'/')) [
  | inl slash ↦ inr (ap (λ d. Text.◌∷◌ d "") (Char-path c "/" (ground arith)))
  | inr other ↦ absurd (cons≢nil (rw other at h))
]
drop_final_slash_empty (Text.◌∷◌ c (Text.◌∷◌ d s)) h = absurd (cons≢nil h)

some_inj : {a b : String} → some a ≡ some b → a ≡ b
some_inj e = cc

-- The environment configures no base address.
abbrev pub IsBlank : Option String → Type 0
IsBlank env = (env ≡ none) ⊎ ((s : String) × (env ≡ some s) × ((trim s ≡ "") ⊎ (trim s ≡ "/")))

api_base_url_empty :
    (env : Option String) → (api_base_url env ≡ none) ⊎ (api_base_url env ≡ some "") → IsBlank env
unfolding api_base_url
api_base_url_empty none h = inl refl
api_base_url_empty (some s) h = inr (
  s,
  refl,
  elim (Bool-cases (str_eq (trim s) "")) [
    | inl empty ↦ inl ((eq_iff (trim s) "").0 empty)
    | inr full ↦
        drop_final_slash_empty (trim s)
          (elim h [ inl e ↦ cc (rw full at e) | inr e ↦ some_inj (rw full at e) ])
  ],
)

empty-api_base_url :
    (env : Option String) → IsBlank env → (api_base_url env ≡ none) ⊎ (api_base_url env ≡ some "")
unfolding api_base_url
empty-api_base_url env (inl e) = rw e (inl refl)
empty-api_base_url env (inr (s, e, inl blank)) = rw (e, blank) (inl refl)
empty-api_base_url env (inr (s, e, inr slash)) = rw (e, slash) (inr refl)

-- A payload that keeps the contract, and its array of events.
abbrev GoodPayload : Value → Value → Type 0
GoodPayload payload v =
    (fs : Fields) × (vs : Items) × (es : List AuditEvent) × (payload ≡ object fs)
    × IsContract fs vs es
    × (v ≡ array vs)

check_payload_sound : (payload v : Value) → check_payload payload ≡ ok v → GoodPayload payload v
unfolding check_payload
check_payload_sound payload v h = elim (Bool-cases (is_audit_response payload)) [
  | inl good ↦
      let (fs, vs, es, same, c) = (is_audit_response_iff payload).0 good in
      let kept : ok (prop payload "events") ≡ ok v = (rw good at h) in
      (fs, vs, es, same, c, cc (kept, ap (λ p. prop p "events") same, prop-events fs c))
  | inr bad ↦ cc (rw bad at h)
]

check_payload_complete : (payload v : Value) → GoodPayload payload v → check_payload payload ≡ ok v
unfolding check_payload
check_payload_complete payload v (fs, vs, es, same, c, v_is) =
    rw ((is_audit_response_iff payload).1 (fs, vs, es, same, c))
      (cc (ap (λ p. prop p "events") same, prop-events fs c, v_is))

module _ (js : Engine) (encode : List (String × String) → String) where
  read_reply_sound :
      (reply : Reply) (v : Value) → read_reply js encode reply ≡ ok v → AcceptedEvents reply v
  unfolding read_reply
  read_reply_sound (refused e) v h = cc
  read_reply_sound (answered r) v h = elim (Bool-cases r.ok) [
    | inr bad ↦ cc (rw bad at h)
    | inl good ↦ elim (Result-cases r.json) [
      | throws e at_json ↦ cc (rw (good, at_json) at h)
      | returns payload at_json ↦
          let (fs, vs, es, same, c, v_is) =
            check_payload_sound payload v (rw (good, at_json) at h) in
          (fs, vs, es, (r, refl, good, at_json ∙ ap ok same), c, v_is)
    ]
  ]

  read_reply_complete :
      (reply : Reply) (v : Value) → AcceptedEvents reply v → read_reply js encode reply ≡ ok v
  unfolding read_reply
  read_reply_complete reply v (fs, vs, es, (r, is_r, good, at_json), c, v_is) =
      rw (is_r, good, at_json) (check_payload_complete (object fs) v (fs, vs, es, refl, c, v_is))

  -- A call of the client returns a value exactly when a nonempty base address is configured and the
  -- reply is a success whose body parses to an object that keeps the contract; the value is then
  -- its array of events.
  pub list_audit_events-Returns_iff :
      (base : Option String) (filters : Filters) (reply : Reply) (v : Value)
      → Returns (list_audit_events js encode base filters) reply v
        ↔ (IsConfigured base × AcceptedEvents reply v)
  unfolding list_audit_events
  list_audit_events-Returns_iff none filters reply v = (λ h. absurd h, λ h. absurd h.0)
  list_audit_events-Returns_iff (some base) filters reply v = elim (Bool-cases (str_eq base "")) [
    | inl empty ↦ rw empty (λ h. absurd h, λ h. absurd (h.0 ((eq_iff base "").0 empty)))
    | inr full ↦
        let filled : base ≢ "" = λ e. false≢true (sym full ∙ (eq_iff base "").1 e) in
        rw full (λ h. (filled, read_reply_sound reply v h), λ h. read_reply_complete reply v h.1)
  ]

  no_base_url-fails :
      (env : Option String) (filters : Filters)
      → (api_base_url env ≡ none) ⊎ (api_base_url env ≡ some "")
      → IsFailing (list_audit_events js encode (api_base_url env) filters)
  unfolding list_audit_events
  no_base_url-fails env filters (inl e) = rw e tt
  no_base_url-fails env filters (inr e) = rw e tt

  fails-no_base_url :
      (base : Option String) (filters : Filters)
      → IsFailing (list_audit_events js encode base filters)
      → (base ≡ none) ⊎ (base ≡ some "")
  unfolding list_audit_events
  fails-no_base_url none filters h = inl refl
  fails-no_base_url (some base) filters h = elim (Bool-cases (str_eq base "")) [
    | inl empty ↦ inr (ap some ((eq_iff base "").0 empty))
    | inr full ↦ absurd (rw full at h)
  ]

  -- Without configuration nothing is sent: the call fails before any request exactly when the
  -- environment has no base address, or one that is blank or a lone slash between blanks.
  pub list_audit_events-api_base_url-fails_iff :
      (env : Option String) (filters : Filters)
      → IsFailing (list_audit_events js encode (api_base_url env) filters) ↔ IsBlank env
  list_audit_events-api_base_url-fails_iff env filters = (
    λ h. api_base_url_empty env (fails-no_base_url (api_base_url env) filters h),
    λ h. no_base_url-fails env filters (empty-api_base_url env h),
  )
