-- ===== src/Dialog/Tests.antt =====
-- A dialog that is opened and closed again.
use block_chain.Common.{true, false, [], ◌∷◌, ◌≡◌, refl}
use block_chain.Dialog.{rendered, is_open, dialog_after, step, render}
use block_chain.Dialog.Modes.{
  uncontrolled, controlled_by, alone, obeyed, newest, closings, alone-obeyed,
}

-- A dialog that opens itself follows its parent too, where the parent's value changes.
follows_its_parent :
    is_open (dialog_after (uncontrolled false) (rendered (uncontrolled true) ∷ [])) ≡ true
unfolding is_open dialog_after step render
follows_its_parent = refl

alone-obeyed_example :
    (is_open (dialog_after (uncontrolled false) (alone (false ∷ true ∷ [])))
      ≡ newest false (false ∷ true ∷ []))
    × (is_open (dialog_after (controlled_by false) (obeyed (false ∷ true ∷ [])))
        ≡ newest false (false ∷ true ∷ []))
    × ((dialog_after (uncontrolled false) (alone (false ∷ true ∷ []))).closed
        ≡ closings (false ∷ true ∷ []))
    × ((dialog_after (controlled_by false) (obeyed (false ∷ true ∷ []))).closed
        ≡ closings (false ∷ true ∷ []))
    × ((dialog_after (controlled_by false) (obeyed (false ∷ true ∷ []))).requested
        ≡ false ∷ true ∷ [])
alone-obeyed_example = alone-obeyed false (false ∷ true ∷ [])
