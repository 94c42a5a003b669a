-- ===== src/Dashboard/Wallet.antt =====
-- The address and the passphrase that the dashboard shows, and what the clipboard holds.
use block_chain.Common.{
  ℕ, zero, suc, true, List, [], ◌∷◌, none, some, ◌≡◌, ◌⊎◌, ◌∙◌, ap, refl, inl, inr, Bool-cases,
}
use block_chain.Js.{Engine, Value, null, truthy}
use block_chain.Fetch.{Reply}
use block_chain.Dashboard.{
  Dashboard, copy_to_clipboard, click_copy_address, click_copy_mnemonic, wallet_reply,
  handle_generate_wallet, Event, health_replied, generate_clicked, wallet_replied, address_copied,
  mnemonic_copied, step, dashboard_after,
}
use block_chain.Dashboard.Keypair.{HasKeypair, reply_generate_wallet-Keypair, reply_health-kept}

abbrev pub GivenBy : Engine → Event → Value → Value → Type 0
GivenBy js (wallet_replied reply) address mnemonic = HasKeypair js reply address mnemonic
GivenBy js (health_replied reply) address mnemonic = ⊥
GivenBy js generate_clicked address mnemonic = ⊥
GivenBy js address_copied address mnemonic = ⊥
GivenBy js mnemonic_copied address mnemonic = ⊥

abbrev pub Given : Engine → List Event → Value → Value → Type 0
Given js [] address mnemonic = ⊥
Given js (e ∷ es) address mnemonic = GivenBy js e address mnemonic ⊎ Given js es address mnemonic

-- What is shown are null and null, or an address with the passphrase of the same reply; what is copied is
-- an address or a passphrase of some reply.
pub record IsPaired (js : Engine) (es : List Event) (d : Dashboard) : Type 0 where
  pub shown :
      ((d.algo_address ≡ null) × (d.mnemonic ≡ null)) ⊎ Given js es d.algo_address d.mnemonic
  pub copied :
      (d.clipboard ≡ none)
      ⊎ ((address : Value) × (mnemonic : Value) × Given js es address mnemonic
          × ((d.clipboard ≡ some address) ⊎ (d.clipboard ≡ some mnemonic)))

null_falsy : (v : Value) → v ≡ null → truthy v ≡ true → ⊥
null_falsy v e held = cc (rw e at held)

module _ (js : Engine) where
  later :
      (e : Event) (es : List Event) (d d' : Dashboard)
      → d'.algo_address ≡ d.algo_address
      → d'.mnemonic ≡ d.mnemonic
      → d'.clipboard ≡ d.clipboard
      → IsPaired js es d
      → IsPaired js (e ∷ es) d'
  later e es d d' p q r h = record {
    shown = elim h.shown [
      | inl (none_yet, none_either) ↦ inl (p ∙ none_yet, q ∙ none_either)
      | inr given ↦ rw (p, q) (inr (inr given))
    ];
    copied = elim h.copied [
      | inl nothing ↦ inl (r ∙ nothing)
      | inr (address, mnemonic, given, held) ↦ rw r (inr (address, mnemonic, inr given, held))
    ];
  }

  wallet_reply-IsPaired :
      (n : ℕ) (reply : Reply) (es : List Event) (d : Dashboard)
      → IsPaired js es d
      → IsPaired js (wallet_replied reply ∷ es) (wallet_reply js n reply d)
  wallet_reply-IsPaired zero reply es d h = later (wallet_replied reply) es d d refl refl refl h
  wallet_reply-IsPaired (suc n) reply es d h =
      let k = reply_generate_wallet-Keypair js reply (record d { waiting = n }) in
      elim k.shown [
        | inl (p, q) ↦ later (wallet_replied reply) es d _ p q k.clipboard h
        | inr given ↦ record {
          shown = inr (inl given);
          copied =
              (later (wallet_replied reply) es d
                (record d { clipboard = (wallet_reply js (suc n) reply d).clipboard }) refl refl
                k.clipboard h).copied;
        }
      ]

  -- A copy of what is shown, where it is truthy.
  copy-IsPaired :
      (e : Event) (es : List Event) (d d' : Dashboard) (v : Value)
      → (v ≡ d.algo_address) ⊎ (v ≡ d.mnemonic)
      → truthy v ≡ true
      → d'.algo_address ≡ d.algo_address
      → d'.mnemonic ≡ d.mnemonic
      → d'.clipboard ≡ some v
      → IsPaired js es d
      → IsPaired js (e ∷ es) d'
  copy-IsPaired e es d d' v which held p q r h = record {
    shown = (later e es d (record d' { clipboard = d.clipboard }) p q refl h).shown;
    copied = elim h.shown [
      | inl (no_address, no_mnemonic) ↦ absurd (
          null_falsy v (elim which [ inl same ↦ same ∙ no_address | inr same ↦ same ∙ no_mnemonic ])
            held)
      | inr given ↦ inr (
        d.algo_address,
        d.mnemonic,
        inr given,
        elim which [ inl same ↦ inl (r ∙ ap some same) | inr same ↦ inr (r ∙ ap some same) ],
      )
    ];
  }

  step-IsPaired :
      (e : Event) (es : List Event) (d : Dashboard)
      → IsPaired js es d
      → IsPaired js (e ∷ es) (step js e d)
  unfolding step click_copy_address click_copy_mnemonic copy_to_clipboard
  step-IsPaired (health_replied reply) es d h = elim (reply_health-kept js reply d).shown [
    | inl (p, q) ↦
        later (health_replied reply) es d _ p q (reply_health-kept js reply d).clipboard h
    | inr nothing ↦ absurd nothing
  ]
  step-IsPaired generate_clicked es d h =
      later generate_clicked es d (handle_generate_wallet d) refl refl refl h
  step-IsPaired (wallet_replied reply) es d h = wallet_reply-IsPaired d.waiting reply es d h
  step-IsPaired address_copied es d h = elim (Bool-cases (truthy d.algo_address)) [
    | inl held ↦ rw held (
        copy-IsPaired address_copied es d (copy_to_clipboard d.algo_address "Algorand Address" d)
          d.algo_address (inl refl) held refl refl refl h)
    | inr empty ↦ rw empty (later address_copied es d d refl refl refl h)
  ]
  step-IsPaired mnemonic_copied es d h = elim (Bool-cases (truthy d.mnemonic)) [
    | inl held ↦ rw held (
        copy-IsPaired mnemonic_copied es d (copy_to_clipboard d.mnemonic "Mnemonic Passphrase" d)
          d.mnemonic (inr refl) held refl refl refl h)
    | inr empty ↦ rw empty (later mnemonic_copied es d d refl refl refl h)
  ]

  -- Over any session, in whatever order replies come: either no address and no passphrase are shown, or they
  -- are those of one and the same reply; and the clipboard holds nothing of the dashboard, or the address or
  -- the passphrase of some reply.
  pub dashboard_after-IsPaired : (es : List Event) → IsPaired js es (dashboard_after js es)
  unfolding dashboard_after
  dashboard_after-IsPaired [] = record { shown = inl (refl, refl); copied = inl refl }
  dashboard_after-IsPaired (e ∷ es) =
      step-IsPaired e es (dashboard_after js es) (dashboard_after-IsPaired es)
