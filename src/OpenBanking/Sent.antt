-- ===== src/OpenBanking/Sent.antt =====
-- Two relations between the dashboard's pages, of the token and of the requests sent.
use block_chain.Common.{List, [], ◌∷◌, ◌++◌, none, ◌≡◌, refl, sym, ap, ◌∙◌, All, All-append}
use mathlib.Core.List.{append-nil, append_assoc}
use block_chain.Js.{Value}
use block_chain.Js.Effects.Keeps.{IsPreorder}
use block_chain.Fetch.{Request}
use block_chain.OpenBanking.Page.{
  Page, Job, Stage, identity, consents, organizations, audit_logs, audit_stats, send,
  show_notification,
}
use block_chain.OpenBanking.Replies.{store}
use block_chain.OpenBanking.Frame.{IsFrame, authorization}

-- More requests were sent, and none with an authorization.
abbrev pub Extends : Page → Page → Type 0
Extends p q = (rs : List Request) × (q.sent ≡ p.sent ++ rs) × All (λ r. authorization r ≡ none) rs

Extends-refl : (p : Page) → Extends p p
Extends-refl p = ([], sym (append-nil p.sent), tt)

Extends-trans : (p q r : Page) → Extends p q → Extends q r → Extends p r
Extends-trans p q r (xs, e, h) (ys, f, k) = (
  xs ++ ys,
  f ∙ ap (λ l. l ++ ys) e ∙ append_assoc p.sent xs ys,
  All-append (λ x. authorization x ≡ none) xs ys h k,
)

pub Extends-IsPreorder : IsPreorder Extends
Extends-IsPreorder = record { refl_R = Extends-refl; trans_R = Extends-trans }

Extends-send :
    (r : Request) (job : Job) (p : Page) → authorization r ≡ none → Extends p (send r job p)
unfolding send
Extends-send r job p h = (r ∷ [], refl, (h, tt))

Extends-notify : (v : Value) (p : Page) → Extends p (show_notification v p)
unfolding show_notification
Extends-notify v p = Extends-refl p

Extends-store : (stage : Stage) (v : Value) (p : Page) → Extends p (store stage v p)
Extends-store identity v p = Extends-refl p
Extends-store consents v p = Extends-refl p
Extends-store organizations v p = Extends-refl p
Extends-store audit_logs v p = Extends-refl p
Extends-store audit_stats v p = Extends-refl p

pub Extends-IsFrame : IsFrame Extends
Extends-IsFrame = record {
  order = Extends-IsPreorder;
  on_send = Extends-send;
  on_notify = Extends-notify;
  on_store = Extends-store;
  on_api_error = λ v. Extends-refl;
  on_bank_data = λ v. Extends-refl;
  on_evaluation = λ v. Extends-refl;
}

-- The token is the same.
abbrev pub SameToken : Page → Page → Type 0
SameToken p q = q.jwt_token ≡ p.jwt_token

SameToken-send :
    (r : Request) (job : Job) (p : Page) → authorization r ≡ none → SameToken p (send r job p)
unfolding send
SameToken-send r job p h = refl

SameToken-notify : (v : Value) (p : Page) → SameToken p (show_notification v p)
unfolding show_notification
SameToken-notify v p = refl

SameToken-store : (stage : Stage) (v : Value) (p : Page) → SameToken p (store stage v p)
SameToken-store identity v p = refl
SameToken-store consents v p = refl
SameToken-store organizations v p = refl
SameToken-store audit_logs v p = refl
SameToken-store audit_stats v p = refl

pub SameToken-IsFrame : IsFrame SameToken
SameToken-IsFrame = record {
  order = record { refl_R = λ p. refl; trans_R = λ p q r h k. k ∙ h };
  on_send = SameToken-send;
  on_notify = SameToken-notify;
  on_store = SameToken-store;
  on_api_error = λ v p. refl;
  on_bank_data = λ v p. refl;
  on_evaluation = λ v p. refl;
}
