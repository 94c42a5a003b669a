-- ===== src/AuditStream/Feed.antt =====
-- The stream as its user sees it, by typed events: what the requests bring and what is searched for, and
-- which typed event a real one amounts to.
use block_chain.Common.{ℕ, zero, suc, String, true, false, List, [], ◌∷◌, ◌≡◌, ◌⊎◌}
use block_chain.Js.{Error, Value, Items, object, Fields, ok, thrown}
use block_chain.Fetch.{Reply, refused, answered}
use block_chain.AuditApi.{AuditEvent, canonical}
use block_chain.AuditApi.Payload.{IsContract}
use block_chain.AuditStream.{Event, refreshed, searched, replied}

pub record Feed : Type 0 where
  pub events : List AuditEvent
  pub filter_text : String
  pub waiting : ℕ

pub data FeedEvent : Type 0 where
  asks fails : FeedEvent
  searches : String → FeedEvent
  brings : List AuditEvent → FeedEvent

-- A reply without events leaves the ones that are shown.
abbrev pub newest : List AuditEvent → List AuditEvent → List AuditEvent
newest [] old = old
newest (e ∷ es) old = e ∷ es

-- A reply counts only while a request waits for one.
abbrev pub received : ℕ → List AuditEvent → Feed → Feed
received zero es f = f
received (suc n) es f = record f { events = newest es f.events; waiting = n }

abbrev pub feed_step : FeedEvent → Feed → Feed
feed_step asks f = record f { waiting = suc f.waiting }
feed_step fails f = received f.waiting [] f
feed_step (searches t) f = record f { filter_text = t }
feed_step (brings es) f = received f.waiting es f

abbrev pub carried : String → ℕ → String → ℕ → String → String → AuditEvent
carried id log address block hash name = record {
  event_id = id;
  chain_id = 416001;
  contract_address = address;
  transaction_hash = hash;
  log_index = log;
  block_number = block;
  event_name = name;
  projection_status = canonical;
}

-- Three events are shown and one request is on its way when the stream appears.
abbrev pub initial_feed : Feed
initial_feed = record {
  events =
      carried "evt_algo_1048576_001" 0 "0x71a2c98401fed34208a1098b09c8213812739812" 1048576
        "ALGO_TX_DID_REGISTER_992183120485761029" "IDENTITY_REGISTERED"
      ∷ carried "evt_algo_1048576_002" 1 "0x3841029848102834012938472910482019472019" 1048577
          "ALGO_TX_MINT_ASA_401928374619283746" "ASA_ASSET_MINTED"
      ∷ carried "evt_algo_1048576_003" 2 "0x5910293847102938471029384710293847102938" 1048578
          "ALGO_TX_ACCESS_EVAL_840192837461928374" "ACCESS_GRANTED"
      ∷ [];
  filter_text = "";
  waiting = 1;
}

-- The feed after a history, the newest event first.
abbrev pub feed_after : List FeedEvent → Feed
feed_after [] = initial_feed
feed_after (t ∷ ts) = feed_step t (feed_after ts)

-- There is no reply, or its status is no success, or its body cannot be read.
abbrev pub Fails : Reply → Type 0
Fails (refused e) = Unit
Fails (answered r) = (r.ok ≡ false) ⊎ ((e : Error) × (r.ok ≡ true) × (r.json ≡ thrown e))

-- A success that carries these events under the contract of lib/api.ts.
abbrev pub Brings : Reply → List AuditEvent → Type 0
Brings (refused e) es = ⊥
Brings (answered r) es =
    (payload : Value) × (fs : Fields) × (vs : Items) × (r.ok ≡ true)
    × (r.json ≡ ok payload)
    × (payload ≡ object fs)
    × IsContract fs vs es

-- What a real event amounts to.
abbrev pub Reads : Event → FeedEvent → Type 0
Reads refreshed asks = Unit
Reads (searched t) (searches u) = t ≡ u
Reads (replied reply) fails = Fails reply
Reads (replied reply) (brings es) = Brings reply es
Reads _ _ = ⊥

abbrev pub AllRead : List Event → List FeedEvent → Type 0
AllRead [] [] = Unit
AllRead (e ∷ es) (t ∷ ts) = Reads e t × AllRead es ts
AllRead _ _ = ⊥
