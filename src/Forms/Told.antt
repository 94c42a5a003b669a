-- ===== src/Forms/Told.antt =====
-- What one reply does to a form.
use Prim.Native.String as Text
use block_chain.Home.Replies.{join_two}
use block_chain.Common.{
  suc, ◌-◌, true, false, List, [], ◌∷◌, ◌++◌, ◌≡◌, ◌⊎◌, refl, inl, inr, arith, length,
  length-append, Bool-cases,
}
use block_chain.Js.{Engine, Error, Value, ok, thrown, returns, throws, Result-cases}
use block_chain.Js.Effects.{◌>>=◌, lift, modify, try_catch}
use block_chain.Fetch.{Reply, Response, refused, answered}
use block_chain.Home.Outcomes.{Grants}
use block_chain.Home.Page.{Toast, success}
use block_chain.Home.Texts.{text_of, hash_start}
use block_chain.Forms.{
  Kind, identity_module, asset_vault, Form, set_stored, add_toast, announce, take_reply,
  reply_submit,
}

-- One more toast; what is stored is as before, or the payload that the reply grants.
pub record Told (G : Value → Type 0) (f g : Form) : Type 0 where
  pub one_more : length g.toasts ≡ suc (length f.toasts)
  pub sent : g.sent ≡ f.sent
  pub waiting : g.waiting ≡ f.waiting - 1
  pub submitting : g.submitting ≡ false
  pub stored : (g.stored ≡ f.stored) ⊎ G g.stored

module _ (js : Engine) where
  one_more : (ts : List Toast) (t : Toast) → length (ts ++ t ∷ []) ≡ suc (length ts)
  one_more ts t = omega (arith, length-append ts (t ∷ []))

  error-Told :
      (G : Value → Type 0) (f : Form) (t : Toast)
      → Told G f
          (record f { toasts = f.toasts ++ t ∷ []; submitting = false; waiting = f.waiting - 1 })
  error-Told G f t = record {
    one_more = one_more f.toasts t;
    sent = refl;
    waiting = refl;
    submitting = refl;
    stored = inl refl;
  }

  success-Told :
      (G : Value → Type 0) (v : Value) (f : Form) (t : Toast)
      → G v
      → Told G f (record f {
        stored = v;
        toasts = f.toasts ++ t ∷ [];
        submitting = false;
        waiting = f.waiting - 1;
      })
  success-Told G v f t g = record {
    one_more = one_more f.toasts t;
    sent = refl;
    waiting = refl;
    submitting = refl;
    stored = inr g;
  }

  announce-cases :
      (k : Kind) (v : Value) (f : Form)
      → ((t : Toast) × (announce js k v f ≡ (ok tt, add_toast t f)))
        ⊎ ((e : Error) × (announce js k v f ≡ (thrown e, f)))
  unfolding announce ◌>>=◌ lift modify
  announce-cases identity_module v f = elim (Result-cases (text_of js v "did")) [
    | throws e d ↦ inr (e, rw d refl)
    | returns did d ↦ elim (Result-cases (hash_start js v)) [
      | throws e h ↦ inr (e, rw (d, h) refl)
      | returns hash h ↦ inl (
        success "Identity Registered!" (join_two "DID: " did " | Hash: " (Text.◌++◌ hash "...")),
        rw (d, h) refl,
      )
    ]
  ]
  announce-cases asset_vault v f = elim (Result-cases (text_of js v "asset_id")) [
    | throws e d ↦ inr (e, rw d refl)
    | returns asset_id d ↦ elim (Result-cases (text_of js v "unit_name")) [
      | throws e h ↦ inr (e, rw (d, h) refl)
      | returns unit_name h ↦ inl (
        success "ASA Digital Asset Minted!"
            (join_two "Asset ID: #" asset_id " | ASA Unit: " unit_name),
        rw (d, h) refl,
      )
    ]
  ]

  answered_submit-Told :
      (G : Value → Type 0) (k : Kind) (r : Response) (f : Form)
      → ((v : Value) → r.ok ≡ true → r.json ≡ ok v → G v)
      → Told G f (reply_submit js k (answered r) f)
  unfolding reply_submit take_reply try_catch ◌>>=◌ lift modify
  answered_submit-Told G k r f h = elim (Result-cases r.json) [
    | throws e j ↦ rw j (error-Told G f _)
    | returns v j ↦ elim (Bool-cases r.ok) [
      | inr failed ↦ elim (Result-cases (text_of js v "detail")) [
        | throws e d ↦ rw (j, failed, d) (error-Told G f _)
        | returns detail d ↦ rw (j, failed, d) (error-Told G f _)
      ]
      | inl granted ↦ elim (announce-cases k v (set_stored v f)) [
        | inl (t, shown) ↦ rw (j, granted, shown) (success-Told G v f t (h v granted j))
        | inr (e, failed) ↦ rw (j, granted, failed) (success-Told G v f _ (h v granted j))
      ]
    ]
  ]

  pub reply_submit-Told :
      (k : Kind) (reply : Reply) (f : Form) → Told (Grants reply) f (reply_submit js k reply f)
  unfolding reply_submit try_catch ◌>>=◌ lift
  reply_submit-Told k (refused e) f = error-Told (Grants (refused e)) f _
  reply_submit-Told k (answered r) f =
      answered_submit-Told (Grants (answered r)) k r f (λ v granted json. (r, refl, granted, json))
