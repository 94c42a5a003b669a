-- ===== src/AccessConsole/Outcomes.antt =====
-- What the user is told of a decision.
use Prim.Native.String as Text
use block_chain.Common.{true, false, [], ◌∷◌, ◌++◌, ◌≡◌, refl, Bool-cases, inl, inr}
use block_chain.Js.{Engine, Value, is_text, get, get?, to_text, ok, returns, throws, Result-cases}
use block_chain.Js.Effects.{◌>>=◌, lift, modify, try_catch}
use block_chain.Fetch.{Reply, Response, refused, answered}
use block_chain.Home.Outcomes.{IsSuccess}
use block_chain.Home.Page.{Toast, success, error}
use block_chain.AccessConsole.{Console, announce, reply_evaluate}

-- The reply was answered with a payload whose decision is the text "GRANTED".
abbrev pub IsGranted : Engine → Reply → Type 0
IsGranted js reply =
    (r : Response) × (v : Value) × (decision : Value) × (reply ≡ answered r)
    × (r.json ≡ ok v)
    × (get js v "decision" ≡ ok decision)
    × (is_text decision "GRANTED" ≡ true)

-- The flag is down, and one more toast is shown, which tells of a grant only if the reply is one.
abbrev pub Announces : Engine → Reply → Console → Console → Type 0
Announces js reply c d =
    (t : Toast) × (d.evaluating ≡ false)
    × (d.toasts ≡ c.toasts ++ t ∷ [])
    × (IsSuccess t → IsGranted js reply)

module _ (js : Engine) where
  -- Whatever the reply, the console is ready again and one more toast is shown; it tells of a grant
  -- only if the reply's payload has the decision "GRANTED".
  pub reply_evaluate-Announces :
      (reply : Reply) (c : Console) → Announces js reply c (reply_evaluate js reply c)
  unfolding reply_evaluate announce try_catch ◌>>=◌ lift modify
  reply_evaluate-Announces (refused e) c = (error _, refl, refl, λ f. absurd f)
  reply_evaluate-Announces (answered r) c = elim (Result-cases r.json) [
    | throws e j ↦ (error "Failed to query Access Decision Engine", refl, rw j, λ f. absurd f)
    | returns v j ↦ elim (Result-cases (get js v "decision")) [
      | throws e g ↦
          (error "Failed to query Access Decision Engine", refl, rw (j, g), λ f. absurd f)
      | returns decision g ↦ elim (Bool-cases (is_text decision "GRANTED")) [
        | inr denied ↦
            (error "Access DENIED by PyTeal Policy!", refl, rw (j, g, denied), λ f. absurd f)
        | inl granted ↦ elim (Result-cases (get js v "proof")) [
          | throws e p ↦ (
            error "Failed to query Access Decision Engine",
            refl,
            rw (j, g, granted, p),
            λ f. absurd f,
          )
          | returns proof p ↦ elim (Result-cases (get? js proof "on_chain_log")) [
            | throws e l ↦ (
              error "Failed to query Access Decision Engine",
              refl,
              rw (j, g, granted, p, l),
              λ f. absurd f,
            )
            | returns log l ↦ elim (Result-cases (to_text js log)) [
              | throws e t ↦ (
                error "Failed to query Access Decision Engine",
                refl,
                rw (j, g, granted, p, l, t),
                λ f. absurd f,
              )
              | returns text t ↦ (
                success "Access GRANTED by PyTeal Contract!" (Text.◌++◌ "Log Proof: " text),
                refl,
                rw (j, g, granted, p, l, t),
                λ f. (r, v, decision, refl, j, g, granted),
              )
            ]
          ]
        ]
      ]
    ]
  ]
