-- ===== src/IndexerAbi.antt =====
-- scripts/validate_indexer_abi.mjs: the event topics of the compiled contract, against those that the
-- indexer's decoder names in its source text.
pub mod Agreement
mod Tests
use Prim.Native.Char.{code}
use Prim.Native.String as Text
use text.Mathlib.Text.{◌==◌ as str_eq, starts_with}
use block_chain.Common.{
  ℕ, zero, suc, ◌+◌, ◌-◌, String, Bool, true, false, ◌&&◌, ◌||◌, List, [], ◌∷◌, Option, none, some,
  not, if◌then◌else◌, leb, ◌==◌, length,
}
use block_chain.Js.{Engine, Result, ok, fail, ◌>>=◌, drop_text, take_text, integer, pos}
use block_chain.AuditApi.{is_space, hex_digits}
use block_chain.Js.Map.{Map, lookup, set_entry}

-- A character of `[A-Za-z0-9_]`.
abbrev is_between : ℕ → ℕ → ℕ → Bool
is_between a b c = leb a c && leb c b

abbrev pub is_word : ℕ → Bool
is_word c =
    is_between b'A' b'Z' c || (is_between b'a' b'z' c || (is_between b'0' b'9' c || c == b'_'))

-- The first characters that pass a test.
abbrev pub take_while : (ℕ → Bool) → String → String
take_while test Text.[] = ""
take_while test (Text.◌∷◌ c s) = if test (code c) then Text.◌∷◌ c (take_while test s) else ""

abbrev pub strip_prefix : String → String → Option String
strip_prefix prefix s =
    if starts_with s prefix then some (drop_text (Text.count prefix) s) else none

abbrev pub and_then {ℓ κ} : {A : Type ℓ} {B : Type κ} → Option A → (A → Option B) → Option B
and_then none f = none
and_then (some a) f = f a

abbrev pub drop_spaces : String → String
drop_spaces s = drop_text (Text.count (take_while is_space s)) s

-- `_EventSpec("name", "0x…"` at the start of a text: the name, the topic and what follows.
unfoldable pub match_spec : String → Option ((String × String) × String)
match_spec s = and_then (strip_prefix "_EventSpec(\"" s) λ s₁.
    let name = take_while is_word s₁ in
    and_then (strip_prefix "\"," (drop_text (Text.count name) s₁)) λ s₂.
      and_then (strip_prefix "\"0x" (drop_spaces s₂)) λ s₃.
        and_then (strip_prefix "\"" (drop_text 64 s₃)) λ rest.
          if str_eq name "" || not (hex_digits 64 (take_text 64 s₃))
          then none
          else some ((name, Text.◌++◌ "0x" (take_text 64 s₃)), rest)

-- `decoder.matchAll(…)`: so many characters are passed over, which belong to the match before.
unfoldable pub match_all : ℕ → String → List (String × String)
unfolding match_spec
match_all skip Text.[] = []
match_all (suc skip) (Text.◌∷◌ c s) = match_all skip s
match_all zero (Text.◌∷◌ c s) = elim (match_spec (Text.◌∷◌ c s)) [
  | none ↦ match_all zero s
  | some (spec, rest) ↦ spec ∷ match_all (Text.count s - Text.count rest) s
]

-- The compiled contract's interface: `type` and `name` of each fragment, and `getEvent(name).topicHash`.
pub record Interface : Type 0 where
  pub fragments : List (String × String)
  pub topic_hash : String → Result String

-- What the script finds on the disk.
pub record Files : Type 0 where
  pub artifact_exists : Bool
  pub interface : Result Interface
  pub decoder : Result String

unfoldable pub event_names : List (String × String) → List String
event_names [] = []
event_names ((type, name) ∷ fragments) =
    let rest = event_names fragments in if str_eq type "event" then name ∷ rest else rest

unfoldable pub canonical_from : (String → Result String) → List String → Map → Result Map
unfolding set_entry
canonical_from topic_hash [] m = ok m
canonical_from topic_hash (name ∷ names) m = do
  topic ← topic_hash name
  canonical_from topic_hash names (set_entry name topic m)

unfoldable pub canonical_of : Interface → Result Map
unfolding event_names canonical_from
canonical_of i = canonical_from i.topic_hash (event_names i.fragments) []

abbrev pub is_topic : Option String → String → Bool
is_topic none topic = false
is_topic (some t) topic = str_eq t topic

abbrev shown : Option String → String
shown none = "undefined"
shown (some t) = t

module _ (js : Engine) (lower : String → String) where
  unfoldable pub observed_from : List (String × String) → Map → Map
  unfolding set_entry
  observed_from [] m = m
  observed_from ((name, topic) ∷ specs) m = observed_from specs (set_entry name (lower topic) m)

  unfoldable pub observed_of : String → Map
  unfolding match_all observed_from
  observed_of decoder = observed_from (match_all 0 decoder) []

  unfoldable pub check_topics : Map → Map → Result (Unit {0})
  check_topics observed [] = ok tt
  check_topics observed ((name, topic) ∷ canonical) =
      let rest = check_topics observed canonical in
      if is_topic (lookup name observed) (lower topic)
      then rest
      else fail (
          Text.◌++◌ "ABI topic mismatch for " (
            Text.◌++◌ name (
              Text.◌++◌ ": decoder="
                (Text.◌++◌ (shown (lookup name observed)) (Text.◌++◌ ", artifact=" topic)))))

  abbrev pub size_text : Map → String
  size_text m = js.show_number (integer (pos (length m)))

  unfoldable pub check_sizes : Map → Map → Result (Unit {0})
  check_sizes observed canonical =
      if length observed == length canonical
      then ok tt
      else fail (
          Text.◌++◌ "ABI event count mismatch: decoder="
            (Text.◌++◌ (size_text observed) (Text.◌++◌ ", artifact=" (size_text canonical))))

  unfoldable pub compare : Map → Map → Result ℕ
  unfolding check_sizes check_topics
  compare observed canonical = do
    a ← check_sizes observed canonical
    b ← check_topics observed canonical
    ok (length canonical)

  -- The number of events that the script reports; `missing` is its message where there is no artifact.
  unfoldable pub validate : String → Files → Result ℕ
  unfolding canonical_of observed_of compare
  validate missing files =
      let outcome = (do
        interface ← files.interface
        canonical ← canonical_of interface
        decoder ← files.decoder
        compare (observed_of decoder) canonical) in
      if files.artifact_exists then outcome else fail missing
