-- ===== src/Home/Outcomes.antt =====
-- What the user is told when a form's reply comes.
use Prim.Native.String as Text
use block_chain.Common.{
  sym, ap, ◌∙◌, ◌≢◌, arith, length, length-append, String, true, false, List, [], ◌∷◌, ◌++◌, ◌≡◌,
  refl, ◌↔◌, Bool-cases, inl, inr,
}
use block_chain.Js.{Engine, Value, ok, returns, throws, Result-cases}
use block_chain.Js.Effects.{◌>>=◌, lift, pure, modify, try_catch}
use block_chain.Fetch.{Reply, Response, refused, answered}
use block_chain.Home.Texts.{text_of, hash_start}
use block_chain.Home.Page.{Page, Toast, success, error}
use block_chain.Home.Replies.{
  show_detail, take_identity, reply_register_identity, take_asset, reply_mint_asa_asset, join_two,
}

abbrev pub IsSuccess : Toast → Type 0
IsSuccess (success title description) = Unit
IsSuccess (error title) = ⊥

-- The reply is a success whose payload is this value.
abbrev pub Grants : Reply → Value → Type 0
Grants reply v = (r : Response) × (reply ≡ answered r) × (r.ok ≡ true) × (r.json ≡ ok v)

-- One more toast is shown; if it tells of a success then the reply was one, with this payload.
abbrev pub Tells : Reply → Value → List Toast → List Toast → Type 0
Tells reply shown before after =
    (t : Toast) × (after ≡ before ++ t ∷ []) × (IsSuccess t → Grants reply shown)

-- The reply can be read, and its status is no success.
abbrev pub IsRejected : Reply → Type 0
IsRejected reply =
    (r : Response) × (v : Value) × (reply ≡ answered r) × (r.ok ≡ false) × (r.json ≡ ok v)

abbrev registered_toast : String → String → Toast
registered_toast did hash =
    success "Identity Registered On-Chain!"
      (join_two "DID: " did " | Hash: " (Text.◌++◌ hash "..."))

-- A list is not itself with one more.
grown : {A : Type 0} (xs : List A) (x : A) → xs ++ x ∷ [] ≢ xs
grown xs x = λ e. omega (arith, length-append xs (x ∷ []), ap length e)

module _ (js : Engine) where
  -- A reply to a registration shows one more toast, whatever the reply is; if the toast tells of a
  -- success, the reply was a success, and the identity stored is its payload.
  pub reply_register_identity-Tells :
      (reply : Reply) (p : Page)
      → Tells reply
          (reply_register_identity js reply p).registered_identity
          p.toasts
          (reply_register_identity js reply p).toasts
  unfolding reply_register_identity take_identity show_detail try_catch ◌>>=◌ lift modify
  reply_register_identity-Tells (refused e) p = (error _, refl, λ f. absurd f)
  reply_register_identity-Tells (answered r) p = elim (Result-cases r.json) [
    | throws e j ↦ rw j (error _, refl, λ f. absurd f)
    | returns v j ↦ elim (Bool-cases r.ok) [
      | inr bad ↦ elim (Result-cases (text_of js v "detail")) [
        | throws e d ↦ rw (j, bad, d) (error _, refl, λ f. absurd f)
        | returns s d ↦ rw (j, bad, d) (error _, refl, λ f. absurd f)
      ]
      | inl good ↦ elim (Result-cases (text_of js v "did")) [
        | throws e d ↦ rw (j, good, d) (error _, refl, λ f. absurd f)
        | returns did d ↦ elim (Result-cases (hash_start js v)) [
          | throws e h ↦ rw (j, good, d, h) (error _, refl, λ f. absurd f)
          | returns hash h ↦
              let stored : (reply_register_identity js (answered r) p).registered_identity ≡ v =
                rw (j, good, d, h) in
              (
                registered_toast did hash,
                rw (j, good, d, h),
                λ f. (r, refl, good, j ∙ ap ok (sym stored)),
              )
        ]
      ]
    ]
  ]

  -- Of a minting the user is told nothing exactly when the reply can be read and its status is no
  -- success.
  pub reply_mint_asa_asset-silent_iff :
      (reply : Reply) (p : Page)
      → ((reply_mint_asa_asset js reply p).toasts ≡ p.toasts) ↔ IsRejected reply
  unfolding reply_mint_asa_asset take_asset try_catch ◌>>=◌ lift modify pure
  reply_mint_asa_asset-silent_iff (refused e) p =
      (λ h. absurd (grown p.toasts _ h), λ (r, v, same, bad, j). cc)
  reply_mint_asa_asset-silent_iff (answered r) p = elim (Result-cases r.json) [
    | throws e j ↦ (λ h. absurd (grown p.toasts _ (rw j at h)), λ (r', v, same, bad, k). cc)
    | returns v j ↦ elim (Bool-cases r.ok) [
      | inr bad ↦ (λ h. (r, v, refl, bad, j), λ _. rw (j, bad))
      | inl good ↦ elim (Result-cases (text_of js v "asset_id")) [
        | throws e a ↦
            (λ h. absurd (grown p.toasts _ (rw (j, good, a) at h)), λ (r', v', same, bad, k). cc)
        | returns asset_id a ↦ elim (Result-cases (text_of js v "unit_name")) [
          | throws e u ↦ (
            λ h. absurd (grown p.toasts _ (rw (j, good, a, u) at h)),
            λ (r', v', same, bad, k). cc,
          )
          | returns unit_name u ↦ (
            λ h. absurd (grown p.toasts _ (rw (j, good, a, u) at h)),
            λ (r', v', same, bad, k). cc,
          )
        ]
      ]
    ]
  ]
