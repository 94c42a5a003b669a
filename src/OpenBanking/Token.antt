-- ===== src/OpenBanking/Token.antt =====
-- `handleEvaluateAccess` from its reply on, as far as the access token.
use block_chain.Common.{String, true, false, ◌≡◌, ◌⊎◌, inl, inr, refl, Bool-cases}
use block_chain.Js.{
  Engine, Error, Value, undefined, null, boolean, number, array, object, string, ok, thrown, truthy,
  get, to_text, returns, throws, Result-cases,
}
use block_chain.Js.Effects.{try_catch}
use block_chain.Fetch.{Reply, refused, answered, Response}
use block_chain.OpenBanking.Page.{Page, refresh_data, show_notification, send}
use block_chain.OpenBanking.Payload.{is_granted}
use block_chain.OpenBanking.Replies.{conclude, reply_evaluate_access}

-- A reply with a token: its payload has a truthy `allowed` and this truthy `access_token`.
pub record Grants (js : Engine) (r : Reply) (token : Value) : Type 0 where
  pub response : Response
  pub payload : Value
  pub allowed : Value
  pub answered_with : r ≡ answered response
  pub parsed : response.json ≡ ok payload
  pub has_allowed : get js payload "allowed" ≡ ok allowed
  pub is_allowed : truthy allowed ≡ true
  pub has_token : get js payload "access_token" ≡ ok token
  pub is_token : truthy token ≡ true

module _ (js : Engine) where
  -- There is no payload to judge: no reply, a body that cannot be read, or one without fields.
  abbrev pub IsUnread : Reply → Type 0
  IsUnread (refused e) = Unit
  IsUnread (answered r) =
      ((e : Error) × (r.json ≡ thrown e))
      ⊎ ((payload : Value) × (e : Error) × (r.json ≡ ok payload)
          × (get js payload "allowed" ≡ thrown e))

  -- The payload's `allowed` or its `access_token` is falsy.
  abbrev pub Denies : Reply → Type 0
  Denies (refused e) = ⊥
  Denies (answered r) =
      (payload : Value) × (allowed : Value) × (token : Value) × (r.json ≡ ok payload)
      × (get js payload "allowed" ≡ ok allowed)
      × (get js payload "access_token" ≡ ok token)
      × ((truthy allowed ≡ false) ⊎ (truthy token ≡ false))

  -- A value that has one field read has every other read.
  get-access_token :
      (v allowed : Value)
      → get js v "allowed" ≡ ok allowed
      → (token : Value) × (get js v "access_token" ≡ ok token)
  unfolding get
  get-access_token null allowed e = cc
  get-access_token undefined allowed e = cc
  get-access_token (boolean b) allowed e = (_, refl)
  get-access_token (number n) allowed e = (_, refl)
  get-access_token (string s) allowed e = (_, refl)
  get-access_token (array vs) allowed e = (_, refl)
  get-access_token (object fs) allowed e = (_, refl)

  -- An evaluation that the network refuses leaves the token, and the error message alone is set.
  refused_token :
      (wallet : String) (e : Error) (p : Page)
      → (reply_evaluate_access js wallet (refused e) p).jwt_token ≡ p.jwt_token
  unfolding reply_evaluate_access try_catch
  refused_token wallet e p = refl

  -- A granted evaluation stores the payload and the token, notifies, and refreshes.
  pub reply_evaluate_access-granted :
      (wallet : String) (r : Response) (p : Page) {v a t : Value}
      → r.json ≡ ok v
      → get js v "allowed" ≡ ok a
      → truthy a ≡ true
      → get js v "access_token" ≡ ok t
      → truthy t ≡ true
      → reply_evaluate_access js wallet (answered r) p
        ≡ refresh_data wallet (
            show_notification
              (string "Authorization granted! JWT Access Token generated.")
              (record p { access_evaluation = v; jwt_token = t }))
  unfolding reply_evaluate_access try_catch conclude is_granted
  reply_evaluate_access-granted wallet r p j ha ya ht yt = rw (j, ha, ya, ht, yt, ht)

  -- The token is emptied whatever the reason reads.
  denied_token :
      (wallet : String) (r : Response) (p : Page) {v : Value}
      → r.json ≡ ok v
      → is_granted js v ≡ ok false
      → (reply_evaluate_access js wallet (answered r) p).jwt_token ≡ string ""
  unfolding reply_evaluate_access try_catch conclude refresh_data send
  denied_token wallet r p {v} j g =
      rw (j, g)
        (elim (Result-cases (get js v "reason")) [
          | throws e at_r ↦ rw at_r refl
          | returns reason at_r ↦ rw at_r (elim (Result-cases (to_text js reason)) [
            | throws e at_t ↦ rw at_t refl
            | returns text at_t ↦ rw at_t refl
          ])
        ])

  granted_token :
      (wallet : String) (r : Response) (p : Page) (v a t : Value)
      → r.json ≡ ok v
      → get js v "allowed" ≡ ok a
      → truthy a ≡ true
      → get js v "access_token" ≡ ok t
      → truthy t ≡ true
      → Grants js (answered r) (reply_evaluate_access js wallet (answered r) p).jwt_token
  unfolding refresh_data show_notification
  granted_token wallet r p v a t j ha ya ht yt =
      rw (reply_evaluate_access-granted wallet r p j ha ya ht yt) (record {
        response = r;
        payload = v;
        allowed = a;
        answered_with = refl;
        parsed = j;
        has_allowed = ha;
        is_allowed = ya;
        has_token = ht;
        is_token = yt;
      })

  unparsed_token :
      (wallet : String) (r : Response) (p : Page) {e : Error}
      → r.json ≡ thrown e
      → (reply_evaluate_access js wallet (answered r) p).jwt_token ≡ p.jwt_token
  unfolding reply_evaluate_access try_catch
  unparsed_token wallet r p j = rw j

  unjudged_token :
      (wallet : String) (r : Response) (p : Page) {v : Value} {e : Error}
      → r.json ≡ ok v
      → is_granted js v ≡ thrown e
      → (reply_evaluate_access js wallet (answered r) p).jwt_token ≡ p.jwt_token
  unfolding reply_evaluate_access try_catch
  unjudged_token wallet r p j g = rw (j, g)

  -- Whether the old token stays, is emptied, or gives way to one that the reply grants.
  abbrev pub Decides : Reply → Value → Value → Type 0
  Decides r old token =
      (IsUnread r × (token ≡ old)) ⊎ (Denies r × (token ≡ string "")) ⊎ Grants js r token

  judged_token :
      (wallet : String) (r : Response) (p : Page) (v a t : Value)
      → r.json ≡ ok v
      → get js v "allowed" ≡ ok a
      → get js v "access_token" ≡ ok t
      → Decides (answered r) p.jwt_token (reply_evaluate_access js wallet (answered r) p).jwt_token
  unfolding is_granted
  judged_token wallet r p v a t j ha ht = elim (Bool-cases (truthy a)) [
    | inr no_a ↦
        inr (inl ((v, a, t, j, ha, ht, inl no_a), denied_token wallet r p j (rw (ha, no_a) refl)))
    | inl yes_a ↦ elim (Bool-cases (truthy t)) [
      | inr no_t ↦ inr (
          inl (
            (v, a, t, j, ha, ht, inr no_t),
            denied_token wallet r p j (rw (ha, yes_a, ht, no_t) refl),
          ))
      | inl yes_t ↦ inr (inr (granted_token wallet r p v a t j ha yes_a ht yes_t))
    ]
  ]

  -- After an evaluation's reply, whatever its status: where there is no payload to judge (no reply, a body
  -- that cannot be read, or one that has no fields) the old token is kept; where the payload's `allowed`
  -- or `access_token` is falsy the token is emptied; and where both are truthy it is that `access_token`.
  pub reply_evaluate_access-token :
      (wallet : String) (r : Reply) (p : Page)
      → Decides r p.jwt_token (reply_evaluate_access js wallet r p).jwt_token
  unfolding is_granted
  reply_evaluate_access-token wallet (refused e) p = inl (tt, refused_token wallet e p)
  reply_evaluate_access-token wallet (answered r) p = elim (Result-cases r.json) [
    | throws e j ↦ inl (inl (e, j), unparsed_token wallet r p j)
    | returns v j ↦ elim (Result-cases (get js v "allowed")) [
      | throws e ha ↦ inl (inr (v, e, j, ha), unjudged_token wallet r p {e = e} j (rw ha refl))
      | returns a ha ↦
          let (t, ht) = get-access_token v a ha in judged_token wallet r p v a t j ha ht
    ]
  ]
