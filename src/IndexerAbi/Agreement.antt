-- ===== src/IndexerAbi/Agreement.antt =====
-- The script's success, beside the events of the decoder and of the compiled contract.
use text.Mathlib.Text.{◌==◌ as str_eq}
use text.Mathlib.TextEquality.{eq_iff}
use block_chain.Common.{
  ℕ, suc, String, true, List, [], ◌∷◌, Option, none, some, ◌≡◌, ◌↔◌, refl, sym, ap, ◌∙◌, inl, inr,
  arith, ◌==◌, ==-eq, eq-==, length, Bool-cases,
}
use block_chain.Js.{Engine, Result, ok, returns, throws, Result-cases}
use block_chain.Js.Map.{
  Map, lookup, set_entry, IsKeyed, IsWithin, set_entry-IsKeyed, same_size-same, same-IsWithin,
  same-size,
}
use block_chain.IndexerAbi.{
  Interface, Files, canonical_from, canonical_of, is_topic, observed_from, observed_of, match_all,
  check_topics, check_sizes, compare, validate,
}

abbrev pub lowered : (String → String) → Option String → Option String
lowered lower none = none
lowered lower (some t) = some (lower t)

abbrev lowered_map : (String → String) → Map → Map
lowered_map lower [] = []
lowered_map lower ((k, v) ∷ m) = (k, lower v) ∷ lowered_map lower m

lookup-lowered_map :
    (lower : String → String) (i : String) (m : Map)
    → lookup i (lowered_map lower m) ≡ lowered lower (lookup i m)
lookup-lowered_map lower i [] = refl
lookup-lowered_map lower i ((k, v) ∷ m) = elim (Bool-cases (str_eq k i)) [
  | inl same ↦ rw same refl
  | inr differ ↦ rw differ (lookup-lowered_map lower i m)
]

length-lowered_map : (lower : String → String) (m : Map) → length (lowered_map lower m) ≡ length m
length-lowered_map lower [] = refl
length-lowered_map lower (e ∷ m) = ap suc (length-lowered_map lower m)

lowered_map-IsKeyed :
    (lower : String → String) (m : Map) → IsKeyed m → IsKeyed (lowered_map lower m)
lowered_map-IsKeyed lower [] h = tt
lowered_map-IsKeyed lower ((k, v) ∷ m) (fresh, h) =
    (lookup-lowered_map lower k m ∙ ap (lowered lower) fresh, lowered_map-IsKeyed lower m h)

canonical_from-IsKeyed :
    (topic_hash : String → Result String) (names : List String) (m canonical : Map)
    → IsKeyed m
    → canonical_from topic_hash names m ≡ ok canonical
    → IsKeyed canonical
unfolding canonical_from
canonical_from-IsKeyed topic_hash [] m canonical h e = let same : m ≡ canonical = cc in rw⁻¹ same h
canonical_from-IsKeyed topic_hash (name ∷ names) m canonical h e =
    elim (Result-cases (topic_hash name)) [
      | throws x t ↦ cc (rw t at e)
      | returns topic t ↦
          canonical_from-IsKeyed topic_hash names (set_entry name topic m) canonical
            (set_entry-IsKeyed name topic m h) (rw t at e)
    ]

is_topic_sound : (o : Option String) (t : String) → is_topic o t ≡ true → o ≡ some t
is_topic_sound none t h = cc
is_topic_sound (some u) t h = ap some ((eq_iff u t).0 h)

is_topic_complete : (o : Option String) (t : String) → o ≡ some t → is_topic o t ≡ true
is_topic_complete o t h = rw h ((eq_iff t t).1 refl)

abbrev pub Passes : Result ℕ → Type 0
Passes r = (n : ℕ) × (r ≡ ok n)

module _ (js : Engine) (lower : String → String) where
  observed_from-IsKeyed :
      (specs : List (String × String)) (m : Map)
      → IsKeyed m
      → IsKeyed (observed_from js lower specs m)
  unfolding observed_from
  observed_from-IsKeyed [] m h = h
  observed_from-IsKeyed ((name, topic) ∷ specs) m h =
      observed_from-IsKeyed specs (set_entry name (lower topic) m)
        (set_entry-IsKeyed name (lower topic) m h)

  observed_of-IsKeyed : (decoder : String) → IsKeyed (observed_of js lower decoder)
  unfolding observed_of
  observed_of-IsKeyed decoder = observed_from-IsKeyed (match_all 0 decoder) [] tt

  check_topics_sound :
      (observed canonical : Map)
      → check_topics js lower observed canonical ≡ ok tt
      → IsWithin (lowered_map lower canonical) observed
  unfolding check_topics
  check_topics_sound observed [] h = tt
  check_topics_sound observed ((name, topic) ∷ m) h =
      elim (Bool-cases (is_topic (lookup name observed) (lower topic))) [
        | inr differ ↦ cc (rw differ at h)
        | inl same ↦ (is_topic_sound _ _ same, check_topics_sound observed m (rw same at h))
      ]

  check_topics_complete :
      (observed canonical : Map)
      → IsWithin (lowered_map lower canonical) observed
      → check_topics js lower observed canonical ≡ ok tt
  unfolding check_topics
  check_topics_complete observed [] h = refl
  check_topics_complete observed ((name, topic) ∷ m) (here, later) =
      rw (is_topic_complete _ _ here) (check_topics_complete observed m later)

  -- The two maps give the same topic for each name, upper and lower case aside.
  abbrev pub Agree : Map → Map → Type 0
  Agree observed canonical =
      (name : String) → lookup name observed ≡ lowered lower (lookup name canonical)

  compare_sound :
      (observed canonical : Map) (n : ℕ)
      → IsKeyed canonical
      → compare js lower observed canonical ≡ ok n
      → Agree observed canonical
  unfolding compare check_sizes
  compare_sound observed canonical n k h = elim (Bool-cases (length observed == length canonical)) [
    | inr differ ↦ cc (rw differ at h)
    | inl size ↦ elim (Result-cases (check_topics js lower observed canonical)) [
      | throws e t ↦ cc (rw (size, t) at h)
      | returns u t ↦ λ name.
          same_size-same (lowered_map lower canonical) observed
            (lowered_map-IsKeyed lower canonical k) (check_topics_sound observed canonical t)
            (omega (arith, ==-eq _ _ size, length-lowered_map lower canonical)) name
          ∙ lookup-lowered_map lower name canonical
    ]
  ]

  compare_complete :
      (observed canonical : Map)
      → IsKeyed observed
      → IsKeyed canonical
      → Agree observed canonical
      → compare js lower observed canonical ≡ ok (length canonical)
  unfolding compare check_sizes
  compare_complete observed canonical k l same =
      let agree : (name : String)
          → lookup name observed ≡ lookup name (lowered_map lower canonical) =
        λ name. same name ∙ sym (lookup-lowered_map lower name canonical) in
      let keyed = lowered_map-IsKeyed lower canonical l in
      rw
        (
          eq-== (length observed) (length canonical) (
              same-size (lowered_map lower canonical) observed keyed k agree
              ∙ length-lowered_map lower canonical),
          check_topics_complete observed canonical
              (same-IsWithin (lowered_map lower canonical) observed keyed agree),
        )
        refl

  -- The artifact is there, what is needed can be read, and the topics agree.
  pub record IsAgreed (files : Files) : Type 0 where
    artifact_exists : files.artifact_exists ≡ true
    interface : Interface
    interface_read : files.interface ≡ ok interface
    canonical : Map
    canonical_read : canonical_of interface ≡ ok canonical
    decoder : String
    decoder_read : files.decoder ≡ ok decoder
    agree : Agree (observed_of js lower decoder) canonical

  validate_sound :
      (missing : String) (files : Files) → Passes (validate js lower missing files) → IsAgreed files
  unfolding validate canonical_of
  validate_sound missing files (n, h) = elim (Bool-cases files.artifact_exists) [
    | inr absent ↦ cc (rw absent at h)
    | inl present ↦ elim (Result-cases files.interface) [
      | throws e i ↦ cc (rw (present, i) at h)
      | returns interface i ↦ elim (Result-cases (canonical_of interface)) [
        | throws e c ↦ cc (rw (present, i, c) at h)
        | returns canonical c ↦ elim (Result-cases files.decoder) [
          | throws e d ↦ cc (rw (present, i, c, d) at h)
          | returns decoder d ↦ record {
            artifact_exists = present;
            interface = interface;
            interface_read = i;
            canonical = canonical;
            canonical_read = c;
            decoder = decoder;
            decoder_read = d;
            agree =
                compare_sound (observed_of js lower decoder) canonical n
                  (canonical_from-IsKeyed interface.topic_hash _ [] canonical tt c)
                  (rw (present, i, c, d) at h);
          }
        ]
      ]
    ]
  ]

  validate_complete :
      (missing : String) (files : Files) → IsAgreed files → Passes (validate js lower missing files)
  unfolding validate canonical_of
  validate_complete missing files a = (
    length a.canonical,
    rw (a.artifact_exists, a.interface_read, a.canonical_read, a.decoder_read)
        (compare_complete (observed_of js lower a.decoder) a.canonical
          (observed_of-IsKeyed a.decoder)
          (canonical_from-IsKeyed a.interface.topic_hash _ [] a.canonical tt a.canonical_read)
          a.agree),
  )

  -- The script succeeds exactly when the artifact is there, both files can be read, and the decoder's text
  -- and the compiled contract give the same topic, upper and lower case aside, for every name: none of the
  -- two names an event that the other does not.
  pub validate_iff :
      (missing : String) (files : Files) → Passes (validate js lower missing files) ↔ IsAgreed files
  validate_iff missing files = (validate_sound missing files, validate_complete missing files)
