-- ===== src/DebugCollector/Redacted.antt =====
-- `sanitizeValue` and what is kept of the user's actions: the buffer, and the reports under way.
use text.Mathlib.Text.{◌==◌ as str_eq}
use block_chain.Common.{
  ℕ, zero, suc, ◌-◌, String, false, List, [], ◌∷◌, ◌++◌, ◌≡◌, refl, ◌⊎◌, inl, inr, ltb, length, All,
  All-append, All-drop, Bool-cases, choose,
}
use block_chain.Js.{
  Value, undefined, null, boolean, number, string, array, object, Items, nil, cons, Fields, end,
  field, contains,
}
use block_chain.DebugCollector.Sanitize.{
  is_sensitive, contains_some, sensitive_fields, sanitize_value, sanitize_items, sanitize_fields,
}
use block_chain.DebugCollector.Store.{
  Browser, Moment, Store, natural, prune_buffer, push_console, push_network, ui_entry, push_ui,
  log_ui_event, ui_size,
}
use block_chain.DebugCollector.Report.{put_back}
use block_chain.DebugCollector.Session.{Event, collector_after}
use block_chain.DebugCollector.Recordings.{IsKept}
use block_chain.DebugCollector.Kept.{collector_after_kept}

-- The words that make a name sensitive.
abbrev pub sensitive_words : List String
sensitive_words =
    "password" ∷ "token" ∷ "secret" ∷ "key" ∷ "authorization" ∷ "cookie" ∷ "session" ∷ []

module _ (lower : String → String) where
  -- None of these words is in the name, upper and lower case aside.
  abbrev pub LacksAll : List String → String → Type 0
  LacksAll words key = All (λ word. contains (lower key) word ≡ false) words

  contains_some-false :
      (words : List String) (key : String)
      → contains_some (lower key) words ≡ false
      → LacksAll words key
  contains_some-false [] key h = tt
  contains_some-false (word ∷ words) key h = elim (Bool-cases (contains (lower key) word)) [
    | inl found ↦ cc (rw found at h)
    | inr lacking ↦ (lacking, contains_some-false words key (rw lacking at h))
  ]

  is_sensitive-false :
      (key : String) → is_sensitive lower key ≡ false → LacksAll sensitive_words key
  unfolding is_sensitive
  is_sensitive-false key h = contains_some-false sensitive_fields key h

  mutual
    -- In every object, at any depth, a field whose name has one of the seven words in it holds the mark.
    pub IsRedacted : Value → Type 0
    IsRedacted (array vs) = IsRedactedItems vs
    IsRedacted (object fs) = IsRedactedFields fs
    IsRedacted _ = Unit

    pub IsRedactedItems : Items → Type 0
    IsRedactedItems nil = Unit
    IsRedactedItems (cons v vs) = IsRedacted v × IsRedactedItems vs

    pub IsRedactedFields : Fields → Type 0
    IsRedactedFields end = Unit
    IsRedactedFields (field k v fs) =
        (LacksAll sensitive_words k ⊎ (v ≡ string "[REDACTED]"))
        × (IsRedacted v × IsRedactedFields fs)

  mutual
    unfolding IsRedacted IsRedactedItems IsRedactedFields sanitize_value sanitize_items
        sanitize_fields

    sanitize_value_sound : (depth : ℕ) (v : Value) → IsRedacted (sanitize_value lower depth v)
    sanitize_value_sound depth undefined = choose IsRedacted (ltb 5 depth) _ _ tt tt
    sanitize_value_sound depth null = choose IsRedacted (ltb 5 depth) _ _ tt tt
    sanitize_value_sound depth (boolean b) = choose IsRedacted (ltb 5 depth) _ _ tt tt
    sanitize_value_sound depth (number n) = choose IsRedacted (ltb 5 depth) _ _ tt tt
    sanitize_value_sound depth (string s) = choose IsRedacted (ltb 5 depth) _ _ tt tt
    sanitize_value_sound depth (array vs) =
        choose IsRedacted (ltb 5 depth) _ _ tt (sanitize_items_sound 100 (suc depth) vs)
    sanitize_value_sound depth (object fs) =
        choose IsRedacted (ltb 5 depth) _ _ tt (sanitize_fields_sound (suc depth) fs)

    sanitize_items_sound :
        (n depth : ℕ) (vs : Items) → IsRedactedItems (sanitize_items lower n depth vs)
    sanitize_items_sound zero depth vs = tt
    sanitize_items_sound (suc n) depth nil = tt
    sanitize_items_sound (suc n) depth (cons v vs) =
        (sanitize_value_sound depth v, sanitize_items_sound n depth vs)

    sanitize_fields_sound :
        (depth : ℕ) (fs : Fields) → IsRedactedFields (sanitize_fields lower depth fs)
    sanitize_fields_sound depth end = tt
    sanitize_fields_sound depth (field k v fs) =
        let rest = sanitize_fields_sound depth fs in
        choose IsRedactedFields (str_eq k "__proto__") _ _ rest
          (elim (Bool-cases (is_sensitive lower k)) [
            | inl hidden ↦ rw hidden (inr refl, (tt, rest))
            | inr plain ↦
                rw plain (inl (is_sensitive-false k plain), (sanitize_value_sound depth v, rest))
          ])

-- The entry of an action: a time, a kind, an address, the size of the window and a payload that is
-- redacted, and nothing else.
abbrev pub IsRedactedEntry : Browser → Value → Type 0
IsRedactedEntry b v =
    (now : ℕ) × (kind : String) × (url : String) × (width : ℕ) × (height : ℕ) × (payload : Value)
    × (v
        ≡ object (
            field "timestamp" (natural now) (
              field "kind" (string kind) (
                field "url" (string url) (
                  field "viewport"
                    (object (field "width" (natural width) (field "height" (natural height) end)))
                    (field "payload" payload end))))))
    × IsRedacted b.lower payload

abbrev pub AreRedacted : Browser → List Value → Type 0
AreRedacted b vs = All (IsRedactedEntry b) vs

prune_buffer-AreRedacted :
    (b : Browser) (max : ℕ) (vs : List Value)
    → AreRedacted b vs
    → AreRedacted b (prune_buffer max vs)
unfolding prune_buffer
prune_buffer-AreRedacted b max vs h =
    choose (AreRedacted b) (ltb max (length vs)) _ _ (All-drop _ (length vs - max) vs h) h

log_ui_event-AreRedacted :
    (b : Browser) (kind : String) (payload : Value) (m : Moment) (s : Store)
    → AreRedacted b s.ui_events
    → AreRedacted b (log_ui_event b kind payload m s).ui_events
unfolding log_ui_event push_ui ui_entry
log_ui_event-AreRedacted b kind payload m s h =
    prune_buffer-AreRedacted b ui_size (s.ui_events ++ _ ∷ []) (
      All-append _ s.ui_events (_ ∷ []) h
        ((_, _, _, _, _, _, refl, sanitize_value_sound b.lower 0 payload), tt))

AreRedacted-IsKept :
    (b : Browser)
    → IsKept b (λ s. AreRedacted b s.ui_events) (λ batch. AreRedacted b batch.ui_events)
unfolding push_console push_network put_back
AreRedacted-IsKept b = record {
  on_start = tt;
  on_console = λ v s h. h;
  on_network = λ v s h. h;
  on_ui = log_ui_event-AreRedacted b;
  on_time = λ n s h. h;
  on_report = λ s h. (tt, h);
  on_put_back = λ batch s q h.
      prune_buffer-AreRedacted b ui_size (batch.ui_events ++ s.ui_events)
        (All-append _ batch.ui_events s.ui_events q h);
}

-- Over any session, each entry of the user's actions, in the script's buffer and in every report that is
-- under way, is an object with a time, a kind, an address, a window's size and a payload, in this order and
-- with nothing else; and in the payload each field, at any depth, holds the mark "[REDACTED]" and nothing
-- else or has a name that contains, upper and lower case aside, none of "password", "token", "secret",
-- "key", "authorization", "cookie" and "session".
pub collector_after-AreRedacted :
    (b : Browser) (es : List Event)
    → AreRedacted b (collector_after b es).store.ui_events
      × All (λ batch. AreRedacted b batch.ui_events) (collector_after b es).reports
collector_after-AreRedacted b es = collector_after_kept (AreRedacted-IsKept b) es
