-- ===== src/Composition/Phases.antt =====
-- The hook over the sessions in which compositions start and end in turn.
use text.Mathlib.Text.{◌==◌ as str_eq}
use block_chain.Common.{
  ℕ, zero, suc, String, Bool, true, false, not, ◌&&◌, ◌||◌, List, [], ◌∷◌, Option, none, some, ◌≡◌,
  ◌⊎◌, inl, inr, refl, ◌==◌, Bool-cases, arith,
}
use block_chain.Composition.{
  id_of, Timeout, outer, inner, Hook, clear_timeout, clear_current, on_composition_start,
  on_composition_end, call_back, stops_key, Event, composition_start, composition_end, timeout,
  run_timeout, step, hook_after,
}

-- Whether a composition is under way.
abbrev pub open_after : List Event → Bool
open_after [] = false
open_after (composition_start ∷ es) = true
open_after (composition_end ∷ es) = false
open_after (timeout i ∷ es) = open_after es

-- A composition starts when none is under way, and ends when one is.
abbrev pub IsAlternating : List Event → Type 0
IsAlternating [] = Unit
IsAlternating (composition_start ∷ es) = (open_after es ≡ false) × IsAlternating es
IsAlternating (composition_end ∷ es) = (open_after es ≡ true) × IsAlternating es
IsAlternating (timeout i ∷ es) = IsAlternating es

-- No composition is under way: nothing is due and the flag is down, or the one timeout that is due is
-- held by its reference.
abbrev pub Closing : Hook → Type 0
Closing h =
    ((h.composing ≡ false) × (h.due ≡ []))
    ⊎ (((id : ℕ) × (h.due ≡ outer id ∷ []) × (h.timer ≡ some id))
        ⊎ ((id : ℕ) × (h.due ≡ inner id ∷ []) × (h.timer2 ≡ some id)))

abbrev pub Phase : Bool → Hook → Type 0
Phase true h = (h.composing ≡ true) × (h.due ≡ [])
Phase false h = Closing h

same_id : (n : ℕ) → (n == n) ≡ true
same_id n = ground arith

clear_outer : (id : ℕ) → clear_timeout id (outer id ∷ []) ≡ []
unfolding clear_timeout
clear_outer id = rw (same_id id)

clear_inner : (id : ℕ) → clear_timeout id (inner id ∷ []) ≡ []
unfolding clear_timeout
clear_inner id = rw (same_id id)

clear_none : (o : Option ℕ) → clear_current o [] ≡ []
unfolding clear_current clear_timeout
clear_none none = refl
clear_none (some id) = refl

clear_other :
    (o : Option ℕ) (t : Timeout)
    → (clear_current o (t ∷ []) ≡ t ∷ []) ⊎ (clear_current o (t ∷ []) ≡ [])
unfolding clear_current clear_timeout
clear_other none t = inl refl
clear_other (some id) t = elim (Bool-cases (id_of t == id)) [
  | inl e ↦ inr (rw e)
  | inr e ↦ inl (rw e)
]

clear_current_outer : (id : ℕ) → clear_current (some id) (outer id ∷ []) ≡ []
unfolding clear_current
clear_current_outer id = clear_outer id

clear_current_inner : (id : ℕ) → clear_current (some id) (inner id ∷ []) ≡ []
unfolding clear_current
clear_current_inner id = clear_inner id

start_cleared : (h : Hook) → Closing h → clear_current h.timer2 (clear_current h.timer h.due) ≡ []
start_cleared h (inl (off, d)) = rw (d, clear_none h.timer) (clear_none h.timer2)
start_cleared h (inr (inl (id, d, t))) = rw (d, t, clear_current_outer id) (clear_none h.timer2)
start_cleared h (inr (inr (id, d, t))) = elim (clear_other h.timer (inner id)) [
  | inl e ↦ rw (d, e, t) (clear_current_inner id)
  | inr e ↦ rw (d, e) (clear_none h.timer2)
]

timeout-Closing : (i : ℕ) (h : Hook) → Closing h → Closing (step (timeout i) h)
unfolding step run_timeout call_back
timeout-Closing i h (inl (off, d)) = rw d (inl (off, refl))
timeout-Closing zero h (inr (inl (id, d, t))) = rw d (inr (inr (h.next_id, refl, refl)))
timeout-Closing (suc i) h (inr (inl (id, d, t))) = rw d (inr (inl (id, refl, t)))
timeout-Closing zero h (inr (inr (id, d, t))) = rw d (inl (refl, refl))
timeout-Closing (suc i) h (inr (inr (id, d, t))) = rw d (inr (inr (id, refl, t)))

timeout-Phase :
    (opened : Bool) (i : ℕ) (h : Hook) → Phase opened h → Phase opened (step (timeout i) h)
unfolding step run_timeout
timeout-Phase false i h p = timeout-Closing i h p
timeout-Phase true i h (on, d) = rw d (on, refl)

-- Whatever the history of compositions that start and end in turn, with the timeouts in between: while
-- one is under way the hook says so, with nothing due; otherwise it is at rest, or one timeout is due.
pub hook_after-Phase : (es : List Event) → IsAlternating es → Phase (open_after es) (hook_after es)
unfolding hook_after step on_composition_start on_composition_end
hook_after-Phase [] a = inl (refl, refl)
hook_after-Phase (composition_start ∷ es) (closed, a) =
    (refl, start_cleared (hook_after es) (rw closed at (hook_after-Phase es a)))
hook_after-Phase (composition_end ∷ es) (opened, a) =
    let p : Phase true (hook_after es) = (rw opened at (hook_after-Phase es a)) in
    inr (inl ((hook_after es).next_id, rw (p.1), refl))
hook_after-Phase (timeout i ∷ es) a =
    timeout-Phase (open_after es) i (hook_after es) (hook_after-Phase es a)

is_on : (h : Hook) → Phase true h → h.composing ≡ true
is_on h (on, d) = on

rest_is_off : (h : Hook) → Closing h → h.due ≡ [] → h.composing ≡ false
rest_is_off h (inl (off, d)) none_due = off
rest_is_off h (inr (inl (id, d, t))) none_due = cc
rest_is_off h (inr (inr (id, d, t))) none_due = cc

-- Over such a history: while a composition is under way, Escape, and Enter without Shift, are stopped
-- and every other key is handed on; once it has ended and no timeout is due, every key is handed on.
pub hook_after-stops_key :
    (es : List Event) (key : String) (shift : Bool)
    → IsAlternating es
    → (open_after es ≡ true
        → stops_key (hook_after es) key shift
          ≡ (str_eq key "Escape" || (str_eq key "Enter" && not shift)))
      × (open_after es ≡ false
          → (hook_after es).due ≡ []
          → stops_key (hook_after es) key shift ≡ false)
unfolding stops_key
hook_after-stops_key es key shift a = (
  λ opened. rw (is_on (hook_after es) (rw opened at (hook_after-Phase es a))),
  λ closed none_due.
      rw (rest_is_off (hook_after es) (rw closed at (hook_after-Phase es a)) none_due),
)
