-- ===== src/Forms/Tests.antt =====
-- Sessions of the forms that the theorem is run on.
use block_chain.Common.{true, List, [], ◌∷◌}
use block_chain.Js.{string, object, integer, pos, end, field, ok}
use block_chain.Js.Example.{example_engine}
use block_chain.Fetch.{Reply, answered}
use block_chain.Forms.{asset_vault, Event, typed, submitted, replied, form_after}
use block_chain.Forms.InFlight.{IsConsistent, form_after-IsConsistent}

abbrev minted : Reply
minted = answered (record {
  ok = true;
  status = integer (pos 200);
  json = ok (object (field "asset_id" (string "7") (field "unit_name" (string "CFR1") end)));
})

abbrev session : List Event
session = submitted ∷ replied minted ∷ submitted ∷ submitted ∷ typed 1 "CFR2" ∷ []

form_after-IsConsistent_example :
    IsConsistent session (form_after example_engine asset_vault session)
form_after-IsConsistent_example = form_after-IsConsistent example_engine asset_vault session
