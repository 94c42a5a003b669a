-- ===== src/Dialog.antt =====
-- apps/web/src/components/ManusDialog.tsx: whether the dialog is open, and the callbacks it makes.
pub mod Modes
mod Tests
use block_chain.Common.{
  ℕ, zero, suc, Bool, true, false, not, ◌&&◌, ◌||◌, List, [], ◌∷◌, if◌then◌else◌,
}

-- `controlled` is whether `onOpenChange` is given.
pub record Props : Type 0 where
  pub open_prop : Bool
  pub controlled : Bool

-- The props of the last render and `internalOpen`; the calls of `onOpenChange`, the newest first, and how
-- often `onClose` was called.
pub record Dialog : Type 0 where
  pub props : Props
  pub internal_open : Bool
  pub requested : List Bool
  pub closed : ℕ

-- The first render; its effect changes nothing.
abbrev pub first_render : Props → Dialog
first_render p = record { props = p; internal_open = p.open_prop; requested = []; closed = 0 }

abbrev pub is_same : Bool → Bool → Bool
is_same true b = b
is_same false b = not b

-- A later render. The effect runs where `open` or `onOpenChange` is another one; one function in place of
-- another makes no difference, since the effect does nothing where there is one.
unfoldable pub render : Props → Dialog → Dialog
render p d =
    let changed =
      not (is_same d.props.open_prop p.open_prop)
      || not (is_same d.props.controlled p.controlled) in
    record d {
      props = p;
      internal_open = if changed && not p.controlled then p.open_prop else d.internal_open;
    }

-- `handleOpenChange`.
unfoldable pub handle_open_change : Bool → Dialog → Dialog
handle_open_change next_open d = record d {
  requested = if d.props.controlled then next_open ∷ d.requested else d.requested;
  internal_open = if d.props.controlled then d.internal_open else next_open;
  closed = if next_open then d.closed else suc d.closed;
}

-- The `open` that the dialog is shown with.
unfoldable pub is_open : Dialog → Bool
is_open d = if d.props.controlled then d.props.open_prop else d.internal_open

pub data Event : Type 0 where
  rendered : Props → Event
  changed : Bool → Event

unfoldable pub step : Event → Dialog → Dialog
unfolding render handle_open_change
step (rendered p) d = render p d
step (changed b) d = handle_open_change b d

-- The dialog after a history of events, the newest first.
unfoldable pub dialog_after : Props → List Event → Dialog
unfolding step
dialog_after p [] = first_render p
dialog_after p (e ∷ es) = step e (dialog_after p es)
