-- ===== src/AuditStream/Session.antt =====
-- The stream over a session, beside the feed of typed events.
use text.Mathlib.Text.{◌==◌ as str_eq}
use text.Mathlib.TextEquality.{eq_iff}
use block_chain.Common.{
  ℕ, zero, suc, String, Bool, false, List, [], ◌∷◌, map, ◌≡◌, ◌≢◌, refl, ap, inl, inr, Bool-cases,
  arith, ◌∙◌,
}
use block_chain.Js.{
  Engine, Value, Items, nil, cons, items, array, Number, number, string, get, above_zero, Result,
  ok, thrown,
}
use block_chain.Js.Effects.{pure, lift, modify, try_catch, handle}
use block_chain.Js.Effects as Effects
use block_chain.Fetch.{Reply, refused, answered}
use block_chain.AuditApi.{AuditEvent}
use block_chain.AuditApi.Contract.{Conforms}
use block_chain.AuditApi.Payload.{EventsConform}
use block_chain.AuditStream.{
  Stream, initial_stream, initial_event, take_events, take_response, reply_audit_logs, Event,
  refreshed, searched, replied, step, stream_after, reply_if, fetch_audit_logs,
}
use block_chain.AuditStream.Table.{table}
use block_chain.AuditStream.Typed.{Shows, AllShow, typed_row, matches, table-matches}
use block_chain.AuditStream.Feed.{
  Feed, FeedEvent, asks, fails, searches, brings, newest, received, feed_step, carried,
  initial_feed, feed_after, Fails, Brings, Reads, AllRead,
}

-- The stream holds an array of these events, and searches for this text.
abbrev Holds : Stream → List AuditEvent → String → Type 0
Holds s es filter_text =
    (vs : Items) × (s.events ≡ array vs) × AllShow (items vs) es × (s.filter_text ≡ filter_text)

abbrev Simulates : Stream → Feed → Type 0
Simulates s f = Holds s f.events f.filter_text × (s.waiting ≡ f.waiting)

nonempty_text : (s : String) → s ≢ "" → str_eq s "" ≡ false
nonempty_text s h = elim (Bool-cases (str_eq s "")) [
  | inl e ↦ absurd (h ((eq_iff s "").0 e))
  | inr e ↦ e
]

Conforms-Shows : (v : Value) (e : AuditEvent) → Conforms v e → Shows v e
Conforms-Shows v e (fs, same, c, w) = (fs, same, c, nonempty_text e.event_id w.event_id)

EventsConform-AllShow :
    (vs : List Value) (es : List AuditEvent) → EventsConform vs es → AllShow vs es
EventsConform-AllShow [] [] h = tt
EventsConform-AllShow [] (e ∷ es) h = absurd h
EventsConform-AllShow (v ∷ vs) [] h = absurd h
EventsConform-AllShow (v ∷ vs) (e ∷ es) (c, cs) =
    (Conforms-Shows v e c, EventsConform-AllShow vs es cs)

pub initial_event-Shows :
    (id address hash : String) (log block : ℕ) (name time : String)
    → str_eq id "" ≡ false
    → Shows
        (initial_event id address hash log block name time)
        (carried id log address block hash name)
initial_event-Shows id address hash log block name time h = (
  _,
  refl,
  record {
    event_id = refl;
    chain_id = refl;
    contract_address = refl;
    transaction_hash = refl;
    log_index = refl;
    block_number = refl;
    event_name = refl;
    projection_status = refl;
  },
  h,
)

initial_stream-Simulates : Simulates (fetch_audit_logs initial_stream) initial_feed
unfolding fetch_audit_logs
initial_stream-Simulates = (
  (
    _,
    refl,
    (
      initial_event-Shows _ _ _ _ _ _ _ refl,
      (initial_event-Shows _ _ _ _ _ _ _ refl, (initial_event-Shows _ _ _ _ _ _ _ refl, tt)),
    ),
    refl,
  ),
  refl,
)

handle_same : {A : Type 0} (r : Result A) (s : Stream) → handle r (λ e t. t) s ≡ s
handle_same (ok a) s = refl
handle_same (thrown e) s = refl

module _ (js : Engine) (numeric : String → Bool) where
  take_events-Holds :
      (vs : Items) (es old : List AuditEvent) (t : String) (s : Stream)
      → AllShow (items vs) es
      → Holds s old t
      → Holds (take_events js numeric (array vs) s).1 (newest es old) t
  unfolding take_events Effects.◌>>=◌ lift pure modify get above_zero
  take_events-Holds nil [] old t s all h = h
  take_events-Holds nil (e ∷ es) old t s all h = absurd all
  take_events-Holds (cons v vs) [] old t s all h = absurd all
  take_events-Holds (cons v vs) (e ∷ es) old t s all (ws, same, shown, text) =
      (cons v vs, refl, all, text)

  failed-Holds :
      (reply : Reply) (es : List AuditEvent) (t : String) (s : Stream)
      → Fails reply
      → Holds s es t
      → Holds (reply_audit_logs js numeric reply s) es t
  unfolding reply_audit_logs take_response try_catch Effects.◌>>=◌ lift pure modify get above_zero
  failed-Holds (refused e) es t s reads h = h
  failed-Holds (answered r) es t s (inl bad) h = rw bad h
  failed-Holds (answered r) es t s (inr (e, good, json)) h = rw (good, json) h

  brought-Holds :
      (reply : Reply) (es old : List AuditEvent) (t : String) (s : Stream)
      → Brings reply es
      → Holds s old t
      → Holds (reply_audit_logs js numeric reply s) (newest es old) t
  unfolding reply_audit_logs take_response try_catch Effects.◌>>=◌ lift pure modify get above_zero
  brought-Holds (refused e) es old t s reads h = absurd reads
  brought-Holds (answered r) es old t s (payload, fs, vs, good, json, same, c) h =
      rw (good, json, same, c.events, handle_same (take_events js numeric (array vs) s).0 _)
        (take_events-Holds vs es old t s (EventsConform-AllShow (items vs) es c.conform) h)

  -- While a request waits, its reply is taken; otherwise nothing changes.
  received-Simulates :
      (reply : Reply) (es : List AuditEvent) (s : Stream) (f : Feed) (n m : ℕ)
      → n ≡ m
      → s.waiting ≡ n
      → Holds (reply_audit_logs js numeric reply s) (newest es f.events) f.filter_text
      → Simulates s f
      → Simulates (reply_if js numeric n reply s) (received m es f)
  unfolding reply_audit_logs
  received-Simulates reply es s f zero zero same at_n taken h = h
  received-Simulates reply es s f zero (suc m) same at_n taken h = cc
  received-Simulates reply es s f (suc n) zero same at_n taken h = cc
  received-Simulates reply es s f (suc n) (suc m) same at_n taken h = (taken, omega arith)

  step-Simulates :
      (e : Event) (t : FeedEvent) (s : Stream) (f : Feed)
      → Reads e t
      → Simulates s f
      → Simulates (step js numeric e s) (feed_step t f)
  unfolding step fetch_audit_logs
  step-Simulates refreshed asks s f reads (h, w) = (h, ap suc w)
  step-Simulates (searched x) (searches y) s f reads ((vs, same, all, text), w) =
      ((vs, same, all, reads), w)
  step-Simulates (replied reply) fails s f reads h =
      received-Simulates reply [] s f s.waiting f.waiting h.1 refl
        (failed-Holds reply f.events f.filter_text s reads h.0) h
  step-Simulates (replied reply) (brings es) s f reads h =
      received-Simulates reply es s f s.waiting f.waiting h.1 refl
        (brought-Holds reply es f.events f.filter_text s reads h.0) h
  step-Simulates _ _ s f reads h = absurd reads

  stream_after-Simulates :
      (es : List Event) (ts : List FeedEvent)
      → AllRead es ts
      → Simulates (stream_after js numeric es) (feed_after ts)
  unfolding stream_after
  stream_after-Simulates [] [] reads = initial_stream-Simulates
  stream_after-Simulates [] (t ∷ ts) reads = absurd reads
  stream_after-Simulates (e ∷ es) [] reads = absurd reads
  stream_after-Simulates (e ∷ es) (t ∷ ts) (here, later) =
      step-Simulates e t (stream_after js numeric es) (feed_after ts) here
        (stream_after-Simulates es ts later)

  module _ (lower : String → String) (react_child : Value → Result String)
      (shows_text : (s : String) → react_child (string s) ≡ ok s)
      (shows_number : (n : Number) → react_child (number n) ≡ ok (js.show_number n)) where
    -- Over any session in which each successful reply that can be read keeps the contract that lib/api.ts
    -- checks (which this component does not), the table is that of the feed: rendering does not throw,
    -- and there is one row, in order, for each event, of those that the last reply with events brought
    -- while a request was waiting or else of the three that the stream starts with, whose name or
    -- transaction hash has the last text searched for in it; provided that React shows texts as they are
    -- and numbers as the language writes them.
    pub table-stream_after :
        (es : List Event) (ts : List FeedEvent)
        → AllRead es ts
        → table js lower react_child (stream_after js numeric es)
          ≡ ok (
              map
                (typed_row js lower react_child)
                (matches js lower react_child (feed_after ts).filter_text (feed_after ts).events))
    table-stream_after es ts reads =
        let ((vs, same, all, text), w) = stream_after-Simulates es ts reads in
        table-matches js lower react_child shows_text shows_number (stream_after js numeric es) vs
          (feed_after ts).events same all
        ∙ ap
            (λ t. ok (
              map (typed_row js lower react_child)
                (matches js lower react_child t (feed_after ts).events)))
            text
