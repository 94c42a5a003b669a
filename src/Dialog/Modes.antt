-- ===== src/Dialog/Modes.antt =====
-- The two ways to use the dialog.
use block_chain.Common.{ℕ, suc, Bool, true, false, List, [], ◌∷◌, ◌≡◌, refl, ap, if◌then◌else◌}
use block_chain.Dialog.{
  Props, Dialog, render, handle_open_change, is_open, Event, rendered, changed, step, dialog_after,
}

abbrev pub uncontrolled : Bool → Props
uncontrolled b = record { open_prop = b; controlled = false }

abbrev pub controlled_by : Bool → Props
controlled_by b = record { open_prop = b; controlled = true }

-- The dialog opens and closes itself.
abbrev pub alone : List Bool → List Event
alone [] = []
alone (b ∷ bs) = changed b ∷ alone bs

-- The parent renders the dialog with each value that it is asked for.
abbrev pub obeyed : List Bool → List Event
obeyed [] = []
obeyed (b ∷ bs) = rendered (controlled_by b) ∷ changed b ∷ obeyed bs

abbrev pub newest : Bool → List Bool → Bool
newest first [] = first
newest first (b ∷ bs) = b

abbrev pub closings : List Bool → ℕ
closings [] = 0
closings (b ∷ bs) = if b then closings bs else suc (closings bs)

-- What the dialog is after changes.
record Is (p : Props) (requested : List Bool) (closed : ℕ) (shown : Bool) (d : Dialog)
    : Type 0 where
  props : d.props ≡ p
  requests : d.requested ≡ requested
  closes : d.closed ≡ closed
  shows : is_open d ≡ shown

alone_lem :
    (first : Bool) (bs : List Bool)
    → Is
        (uncontrolled first)
        []
        (closings bs)
        (newest first bs)
        (dialog_after (uncontrolled first) (alone bs))
unfolding dialog_after step handle_open_change is_open
alone_lem first [] = record { props = refl; requests = refl; closes = refl; shows = refl }
alone_lem first (b ∷ bs) =
    let h = alone_lem first bs in
    let free = ap (λ p. p.controlled) h.props in
    record {
      props = h.props;
      requests = rw free h.requests;
      closes = ap (λ n. if b then n else suc n) h.closes;
      shows = rw free refl;
    }

obeyed_lem :
    (first : Bool) (bs : List Bool)
    → Is
        (controlled_by (newest first bs))
        bs
        (closings bs)
        (newest first bs)
        (dialog_after (controlled_by first) (obeyed bs))
unfolding dialog_after step render handle_open_change is_open
obeyed_lem first [] = record { props = refl; requests = refl; closes = refl; shows = refl }
obeyed_lem first (b ∷ bs) =
    let h = obeyed_lem first bs in
    let bound = ap (λ p. p.controlled) h.props in
    record {
      props = refl;
      requests = rw bound (ap (b ∷◌) h.requests);
      closes = ap (λ n. if b then n else suc n) h.closes;
      shows = refl;
    }

-- A dialog that opens and closes itself and one whose parent renders it with each value that it is asked
-- for agree after the same changes: both are open as the newest change says, or as they were first
-- rendered, and both have called `onClose` once for each change to closed; the parent was asked for every
-- change, in order.
pub alone-obeyed :
    (first : Bool) (bs : List Bool)
    → (is_open (dialog_after (uncontrolled first) (alone bs)) ≡ newest first bs)
      × (is_open (dialog_after (controlled_by first) (obeyed bs)) ≡ newest first bs)
      × ((dialog_after (uncontrolled first) (alone bs)).closed ≡ closings bs)
      × ((dialog_after (controlled_by first) (obeyed bs)).closed ≡ closings bs)
      × ((dialog_after (controlled_by first) (obeyed bs)).requested ≡ bs)
alone-obeyed first bs =
    let a = alone_lem first bs in
    let o = obeyed_lem first bs in (a.shows, o.shows, a.closes, o.closes, o.requests)
