-- ===== src/AuditApi/Payload.antt =====
-- lib/api.ts: the check of a whole response.
use block_chain.Common.{
  true, List, [], ◌∷◌, Option, none, some, ◌≡◌, ◌↔◌, refl, all, and-eq-true, and_true,
}
use block_chain.Js.{
  Value, boolean, array, object, items, is_true, own, own_or_undefined, Fields, Items,
}
use block_chain.AuditApi.{AuditEvent, prop, is_audit_event, every_is_audit_event, is_audit_response}
use block_chain.AuditApi.Contract.{Conforms, is_audit_event_complete, is_audit_event_sound}

-- One typed event for each element, in order.
abbrev pub EventsConform : List Value → List AuditEvent → Type 0
EventsConform [] [] = Unit
EventsConform (v ∷ vs) (e ∷ es) = Conforms v e × EventsConform vs es
EventsConform _ _ = ⊥

all_sound :
    (vs : List Value) → all is_audit_event vs ≡ true → (es : List AuditEvent) × EventsConform vs es
all_sound [] h = ([], tt)
all_sound (v ∷ vs) h =
    let (here, later) = and-eq-true (is_audit_event v) (all is_audit_event vs) h in
    let (e, c) = is_audit_event_sound v here in
    let (es, cs) = all_sound vs later in (e ∷ es, (c, cs))

all_complete :
    (vs : List Value) (es : List AuditEvent) → EventsConform vs es → all is_audit_event vs ≡ true
all_complete [] es c = refl
all_complete (v ∷ vs) [] c = absurd c
all_complete (v ∷ vs) (e ∷ es) (c, cs) =
    and_true (is_audit_event_complete v e c) (all_complete vs es cs)

-- What the client accepts as a response, with the events that it carries.
pub record IsContract (fs : Fields) (vs : Items) (es : List AuditEvent) : Type 0 where
  pub projection_only : own fs "projection_only" ≡ some (boolean true)
  pub events : own fs "events" ≡ some (array vs)
  pub conform : EventsConform (items vs) es

abbrev pub CarriesEvents : Value → Type 0
CarriesEvents v =
    (fs : Fields) × (vs : Items) × (es : List AuditEvent) × (v ≡ object fs) × IsContract fs vs es

every_sound :
    (v : Value)
    → every_is_audit_event v ≡ true
    → (vs : Items) × (es : List AuditEvent) × (v ≡ array vs) × EventsConform (items vs) es
unfolding every_is_audit_event
every_sound (array vs) h = let (es, c) = all_sound (items vs) h in (vs, es, refl, c)
every_sound _ h = cc

own-true : (o : Option Value) → is_true (own_or_undefined o) ≡ true → o ≡ some (boolean true)
own-true (some (boolean true)) h = refl
own-true none h = cc
own-true _ h = cc

own-array : (o : Option Value) (vs : Items) → own_or_undefined o ≡ array vs → o ≡ some (array vs)
own-array none vs e = cc
own-array (some v) vs e = cc

is_audit_response_sound : (v : Value) → is_audit_response v ≡ true → CarriesEvents v
unfolding is_audit_response
is_audit_response_sound (object fs) h =
    let (h₁, h₂) =
      and-eq-true (is_true (prop (object fs) "projection_only"))
        (every_is_audit_event (prop (object fs) "events")) h in
    let (vs, es, same, c) = every_sound _ h₂ in
    (
      fs,
      vs,
      es,
      refl,
      record {
        projection_only = own-true (own fs "projection_only") h₁;
        events = own-array (own fs "events") vs same;
        conform = c;
      },
    )
is_audit_response_sound _ h = cc

is_audit_response_complete : (v : Value) → CarriesEvents v → is_audit_response v ≡ true
unfolding is_audit_response
is_audit_response_complete v (fs, vs, es, same, c) =
    rw same (rw (c.projection_only, c.events) (all_complete (items vs) es c.conform))

-- The response check accepts exactly the objects with `projection_only` true and an array of
-- conforming events.
pub is_audit_response_iff : (v : Value) → (is_audit_response v ≡ true) ↔ CarriesEvents v
is_audit_response_iff v = (is_audit_response_sound v, is_audit_response_complete v)
