-- ===== src/Dashboard/Tests.antt =====
-- Dashboards that the theorems are run on.
use block_chain.Common.{true, List, [], ◌∷◌, ◌≡◌, refl}
use block_chain.Js.{string, number, object, integer, pos, end, field, ok, thrown, slice_to}
use block_chain.Js.Example.{example_engine}
use block_chain.Fetch.{Reply, answered}
use block_chain.Dashboard.{
  Event, generate_clicked, wallet_replied, mnemonic_copied, header_label, dashboard_after,
}
use block_chain.Dashboard.Wallet.{IsPaired, dashboard_after-IsPaired}

abbrev keypair : Reply
keypair = answered (record {
  ok = true;
  status = integer (pos 200);
  json = ok (object (field "address" (string "ALGO1") (field "mnemonic" (string "abandon") end)));
})

abbrev session : List Event
session = mnemonic_copied ∷ wallet_replied keypair ∷ generate_clicked ∷ []

-- An address that is a number is stored, and the header cannot be rendered.
number-throws :
    header_label example_engine (number (integer (pos 7)))
    ≡ thrown (record { name = "TypeError"; message = "slice" })
unfolding header_label slice_to
number-throws = refl

dashboard_after-IsPaired_example :
    IsPaired example_engine session (dashboard_after example_engine session)
dashboard_after-IsPaired_example = dashboard_after-IsPaired example_engine session
