-- ===== src/Dashboard/Keypair.antt =====
-- What one reply does to the address and the passphrase that are shown.
use block_chain.Common.{◌≡◌, ◌⊎◌, refl, inl, inr, Bool-cases}
use block_chain.Home.Page.{Toast, success}
use block_chain.Home.Replies.{join_two}
use block_chain.Js.{
  Engine, Error, Value, undefined, null, boolean, number, string, array, object, thrown, truthy,
  get, slice_to, slice_from_end, to_text, ok, returns, throws, Result-cases,
}
use block_chain.Js.Effects.{◌>>=◌, lift, pure, modify, try_catch}
use block_chain.Fetch.{Reply, Response, refused, answered}
use block_chain.Dashboard.{
  Dashboard, set_algo_address, set_mnemonic, add_toast, announce_keypair, reply_health,
  take_keypair, reply_generate_wallet,
}

-- The reply's payload has this address and this passphrase.
abbrev pub HasKeypair : Engine → Reply → Value → Value → Type 0
HasKeypair js reply address mnemonic =
    (r : Response) × (v : Value) × (reply ≡ answered r)
    × (r.json ≡ ok v)
    × (get js v "address" ≡ ok address)
    × (get js v "mnemonic" ≡ ok mnemonic)

module _ (js : Engine) where
  get-mnemonic :
      (v address : Value)
      → get js v "address" ≡ ok address
      → (mnemonic : Value) × (get js v "mnemonic" ≡ ok mnemonic)
  unfolding get
  get-mnemonic null address e = cc
  get-mnemonic undefined address e = cc
  get-mnemonic (boolean b) address e = (_, refl)
  get-mnemonic (number n) address e = (_, refl)
  get-mnemonic (string s) address e = (_, refl)
  get-mnemonic (array vs) address e = (_, refl)
  get-mnemonic (object fs) address e = (_, refl)

  -- What is shown is as before, or a keypair of which the property holds; the clipboard is as before.
  pub record Keypair (G : Value → Value → Type 0) (d e : Dashboard) : Type 0 where
    pub shown :
        ((e.algo_address ≡ d.algo_address) × (e.mnemonic ≡ d.mnemonic))
        ⊎ G e.algo_address e.mnemonic
    pub clipboard : e.clipboard ≡ d.clipboard

  unchanged :
      (G : Value → Value → Type 0) (d e : Dashboard)
      → e.algo_address ≡ d.algo_address
      → e.mnemonic ≡ d.mnemonic
      → e.clipboard ≡ d.clipboard
      → Keypair G d e
  unchanged G d e p q r = record { shown = inl (p, q); clipboard = r }

  announce_keypair-cases :
      (address : Value) (d : Dashboard)
      → ((t : Toast) × (announce_keypair js address d ≡ (ok tt, add_toast t d)))
        ⊎ ((e : Error) × (announce_keypair js address d ≡ (thrown e, d)))
  unfolding announce_keypair ◌>>=◌ lift modify
  announce_keypair-cases address d = elim (Result-cases (slice_to js address 10)) [
    | throws e a ↦ inr (e, rw a refl)
    | returns first a ↦ elim (Result-cases (to_text js first)) [
      | throws e b ↦ inr (e, rw (a, b) refl)
      | returns first_text b ↦ elim (Result-cases (slice_from_end js address 6)) [
        | throws e c ↦ inr (e, rw (a, b, c) refl)
        | returns last c ↦ elim (Result-cases (to_text js last)) [
          | throws e f ↦ inr (e, rw (a, b, c, f) refl)
          | returns last_text f ↦ inl (
            success "Algorand Keypair Generated!" (join_two "Address: " first_text "..." last_text),
            rw (a, b, c, f) refl,
          )
        ]
      ]
    ]
  ]

  answered_wallet-Keypair :
      (G : Value → Value → Type 0) (r : Response) (d : Dashboard)
      → ((v address mnemonic : Value)
          → r.json ≡ ok v
          → get js v "address" ≡ ok address
          → get js v "mnemonic" ≡ ok mnemonic
          → G address mnemonic)
      → Keypair G d (reply_generate_wallet js (answered r) d)
  unfolding reply_generate_wallet take_keypair try_catch ◌>>=◌ lift pure modify
  answered_wallet-Keypair G r d h = elim (Result-cases r.json) [
    | throws e j ↦ rw j (unchanged G d _ refl refl refl)
    | returns v j ↦ elim (Result-cases (get js v "address")) [
      | throws e a ↦ rw (j, a) (unchanged G d _ refl refl refl)
      | returns address a ↦ elim (Bool-cases (truthy address)) [
        | inr missing ↦ rw (j, a, missing) (unchanged G d _ refl refl refl)
        | inl found ↦
            let (mnemonic, m) = get-mnemonic v address a in
            let given = h v address mnemonic j a m in
            elim (announce_keypair-cases address
              (set_mnemonic mnemonic (set_algo_address address d))) [
                | inl (t, told) ↦
                    rw (j, a, found, m, told) (record { shown = inr given; clipboard = refl })
                | inr (e, failed) ↦
                    rw (j, a, found, m, failed) (record { shown = inr given; clipboard = refl })
              ]
      ]
    ]
  ]

  pub reply_generate_wallet-Keypair :
      (reply : Reply) (d : Dashboard)
      → Keypair (HasKeypair js reply) d (reply_generate_wallet js reply d)
  unfolding reply_generate_wallet try_catch ◌>>=◌ lift
  reply_generate_wallet-Keypair (refused e) d =
      unchanged (HasKeypair js (refused e)) d _ refl refl refl
  reply_generate_wallet-Keypair (answered r) d =
      answered_wallet-Keypair (HasKeypair js (answered r)) r d
        (λ v address mnemonic j a m. (r, v, refl, j, a, m))

  pub reply_health-kept :
      (reply : Reply) (d : Dashboard) → Keypair (λ a m. ⊥) d (reply_health js reply d)
  unfolding reply_health try_catch ◌>>=◌ lift modify
  reply_health-kept (refused e) d = unchanged _ d _ refl refl refl
  reply_health-kept (answered r) d = elim (Result-cases r.json) [
    | throws e j ↦ rw j (unchanged _ d _ refl refl refl)
    | returns v j ↦ elim (Result-cases (get js v "status")) [
      | throws e s ↦ rw (j, s) (unchanged _ d _ refl refl refl)
      | returns status s ↦ rw (j, s) (unchanged _ d _ refl refl refl)
    ]
  ]
