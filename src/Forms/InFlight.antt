-- ===== src/Forms/InFlight.antt =====
-- What holds of a form over any session.
use block_chain.Common.{
  ℕ, zero, suc, ◌+◌, true, false, ◌||◌, List, [], ◌∷◌, ◌≡◌, ◌⊎◌, refl, ap, inl, inr, arith, length,
  length-append, Bool-cases,
}
use block_chain.Js.{Engine, Value, null}
use block_chain.Fetch.{Reply}
use block_chain.Forms.{
  set_value, Kind, Form, click_submit, handle_submit, some_empty, reply_submit, Event, typed,
  submitted, replied, reply_if, step, form_after,
}
use block_chain.Home.Outcomes.{Grants}
use block_chain.Forms.Told.{reply_submit-Told}

abbrev pub GrantedBy : Event → Value → Type 0
GrantedBy (replied reply) v = Grants reply v
GrantedBy (typed i t) v = ⊥
GrantedBy submitted v = ⊥

abbrev pub Granted : List Event → Value → Type 0
Granted [] v = ⊥
Granted (e ∷ es) v = GrantedBy e v ⊎ Granted es v

-- Exactly one request is under way while the form is submitting, and none while it is not; each request that
-- was sent either is under way or has shown one toast; what is stored is null or a payload of a success.
pub record IsConsistent (es : List Event) (f : Form) : Type 0 where
  pub in_flight :
      ((f.submitting ≡ true) × (f.waiting ≡ 1)) ⊎ ((f.submitting ≡ false) × (f.waiting ≡ 0))
  pub answered_once : length f.sent ≡ length f.toasts + f.waiting
  pub granted : (f.stored ≡ null) ⊎ Granted es f.stored

-- One event more in the history.
later : (e : Event) (es : List Event) (f : Form) → IsConsistent es f → IsConsistent (e ∷ es) f
later e es f c = record {
  in_flight = c.in_flight;
  answered_once = c.answered_once;
  granted = elim c.granted [ inl none_yet ↦ inl none_yet | inr before ↦ inr (inr before) ];
}

idle :
    (f : Form)
    → ((f.submitting ≡ true) × (f.waiting ≡ 1)) ⊎ ((f.submitting ≡ false) × (f.waiting ≡ 0))
    → (f.submitting || some_empty f.values) ≡ false
    → f.waiting ≡ 0
idle f (inl (busy, one)) going = absurd (cc (rw busy at going))
idle f (inr (ready, none_under_way)) going = none_under_way

only_one :
    (f : Form) (n : ℕ)
    → f.waiting ≡ suc n
    → ((f.submitting ≡ true) × (f.waiting ≡ 1)) ⊎ ((f.submitting ≡ false) × (f.waiting ≡ 0))
    → f.waiting ≡ 1
only_one f n e (inl (busy, one)) = one
only_one f n e (inr (ready, none_under_way)) = absurd (omega (arith, e, none_under_way))

module _ (js : Engine) where
  module _ (k : Kind) where
    click_submit-IsConsistent :
        (es : List Event) (f : Form)
        → IsConsistent es f
        → IsConsistent (submitted ∷ es) (click_submit k f)
    unfolding click_submit handle_submit
    click_submit-IsConsistent es f c = elim (Bool-cases (f.submitting || some_empty f.values)) [
      | inl stopped ↦ rw stopped (later submitted es f c)
      | inr going ↦ rw going (record {
        in_flight = inl (refl, ap suc (idle f c.in_flight going));
        answered_once = omega (arith, length-append f.sent (_ ∷ []), c.answered_once);
        granted = (later submitted es f c).granted;
      })
    ]

    -- A reply that comes while a request waits.
    reply_submit-IsConsistent :
        (reply : Reply) (es : List Event) (f : Form)
        → f.waiting ≡ 1
        → IsConsistent es f
        → IsConsistent (replied reply ∷ es) (reply_submit js k reply f)
    reply_submit-IsConsistent reply es f one c =
        let told = reply_submit-Told js k reply f in
        record {
          in_flight = inr (told.submitting, omega (arith, told.waiting, one));
          answered_once =
              omega (arith, told.waiting, one, told.one_more, c.answered_once, ap length told.sent);
          granted = elim told.stored [
            | inr new ↦ inr (inl new)
            | inl same ↦ rw same (later (replied reply) es f c).granted
          ];
        }

    reply_if-IsConsistent :
        (n : ℕ) (reply : Reply) (es : List Event) (f : Form)
        → f.waiting ≡ n
        → IsConsistent es f
        → IsConsistent (replied reply ∷ es) (reply_if js k n reply f)
    reply_if-IsConsistent zero reply es f e c = later (replied reply) es f c
    reply_if-IsConsistent (suc n) reply es f e c =
        reply_submit-IsConsistent reply es f (only_one f n e c.in_flight) c

    step-IsConsistent :
        (e : Event) (es : List Event) (f : Form)
        → IsConsistent es f
        → IsConsistent (e ∷ es) (step js k e f)
    unfolding step
    step-IsConsistent (typed i t) es f c =
        later (typed i t) es (record f { values = set_value i t f.values })
          (record { in_flight = c.in_flight; answered_once = c.answered_once; granted = c.granted })
    step-IsConsistent submitted es f c = click_submit-IsConsistent es f c
    step-IsConsistent (replied reply) es f c = reply_if-IsConsistent f.waiting reply es f refl c

    -- Over any session of either form, whatever is typed, however often it is submitted, and whatever the
    -- replies: exactly one request is under way while the form is submitting and none while it is not; each
    -- request that was sent is under way or has shown exactly one toast; and what is stored is null or the
    -- payload of a reply that was a success.
    pub form_after-IsConsistent : (es : List Event) → IsConsistent es (form_after js k es)
    unfolding form_after
    form_after-IsConsistent [] = record {
      in_flight = inr (refl, refl);
      answered_once = refl;
      granted = inl refl;
    }
    form_after-IsConsistent (e ∷ es) =
        step-IsConsistent e es (form_after js k es) (form_after-IsConsistent es)
