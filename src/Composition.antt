-- ===== src/Composition.antt =====
-- apps/web/src/hooks/useComposition.ts: whether a text is being composed by an input method. The
-- original handlers are called in each case and do not touch the hook's state.
pub mod Phases
mod Tests
use text.Mathlib.Text.{◌==◌ as str_eq}
use block_chain.Common.{
  ℕ, suc, String, Bool, true, false, not, ◌&&◌, ◌||◌, List, [], ◌∷◌, ◌++◌, Option, none, some,
  if◌then◌else◌, ◌==◌, get_elem?, erase_idx,
}

-- A timeout that is due: the outer one starts the inner one, which ends the composition.
pub data Timeout : Type 0 where
  outer inner : (id : ℕ) → Timeout

-- The three references, with the timeouts that are due and the next timeout's id.
pub record Hook : Type 0 where
  pub composing : Bool
  pub timer : Option ℕ
  pub timer2 : Option ℕ
  pub due : List Timeout
  pub next_id : ℕ

abbrev pub initial_hook : Hook
initial_hook = record { composing = false; timer = none; timer2 = none; due = []; next_id = 1 }

abbrev pub id_of : Timeout → ℕ
id_of (outer id) = id
id_of (inner id) = id

unfoldable pub clear_timeout : ℕ → List Timeout → List Timeout
clear_timeout id [] = []
clear_timeout id (t ∷ ts) =
    let rest = clear_timeout id ts in if id_of t == id then rest else t ∷ rest

-- `if (timer.current) { clearTimeout(timer.current); … }`.
unfoldable pub clear_current : Option ℕ → List Timeout → List Timeout
unfolding clear_timeout
clear_current none due = due
clear_current (some id) due = clear_timeout id due

unfoldable pub on_composition_start : Hook → Hook
unfolding clear_current
on_composition_start h = record h {
  composing = true;
  timer = none;
  timer2 = none;
  due = clear_current h.timer2 (clear_current h.timer h.due);
}

unfoldable pub on_composition_end : Hook → Hook
on_composition_end h = record h {
  timer = some h.next_id;
  due = h.due ++ outer h.next_id ∷ [];
  next_id = suc h.next_id;
}

-- A timeout's callback.
unfoldable pub call_back : Timeout → Hook → Hook
call_back (outer id) h = record h {
  timer2 = some h.next_id;
  due = h.due ++ inner h.next_id ∷ [];
  next_id = suc h.next_id;
}
call_back (inner id) h = record h { composing = false }

-- Whether `onKeyDown` stops the key, which is otherwise handed to the original handler.
unfoldable pub stops_key : Hook → String → Bool → Bool
stops_key h key shift = h.composing && (str_eq key "Escape" || (str_eq key "Enter" && not shift))

pub data Event : Type 0 where
  composition_start composition_end : Event
  -- The i-th timeout that is due runs.
  timeout : ℕ → Event

unfoldable pub run_timeout : Option Timeout → ℕ → Hook → Hook
unfolding call_back
run_timeout none i h = h
run_timeout (some t) i h = call_back t (record h { due = erase_idx h.due i })

unfoldable pub step : Event → Hook → Hook
unfolding on_composition_start on_composition_end run_timeout
step composition_start h = on_composition_start h
step composition_end h = on_composition_end h
step (timeout i) h = run_timeout (get_elem? h.due i) i h

-- The hook after a history of events, the newest first.
unfoldable pub hook_after : List Event → Hook
unfolding step
hook_after [] = initial_hook
hook_after (e ∷ es) = step e (hook_after es)
