-- ===== src/Home/Tests.antt =====
-- Sessions and replies that the page's theorems are run on.
use block_chain.Common.{true, false, List, [], ◌∷◌, ◌≡◌, ◌↔◌, refl}
use block_chain.Js.{
  Value, string, object, end, field, integer, pos, ok, get, to_text, slice_first?, slice_first,
}
use block_chain.Js.Example.{example_engine}
use block_chain.Js.Effects.{◌>>=◌, lift, modify, try_catch}
use block_chain.Fetch.{Reply, answered}
use block_chain.Home.Page.{success, initial_page}
use block_chain.Home.Texts.{text_of, hash_start}
use block_chain.Home.Replies.{take_identity, reply_register_identity, reply_mint_asa_asset}
use block_chain.Home.Events.{Event, submit_identity, submit_asset, reply, page_after}
use block_chain.Home.InFlight.{InFlight, page_after-InFlight}
use block_chain.Home.Outcomes.{
  Tells, IsRejected, reply_register_identity-Tells, reply_mint_asa_asset-silent_iff,
}

abbrev identity_payload : Value
identity_payload = object (
    field "did" (string "did:secure:alice-001")
      (field "did_hash" (string "0123456789abcdef0123") end))

abbrev registered : Reply
registered = answered (record { ok = true; status = integer (pos 200); json = ok identity_payload })

abbrev rejected : Reply
rejected = answered (record {
  ok = false;
  status = integer (pos 422);
  json = ok (object (field "detail" (string "missing field") end));
})

-- The newest event first: the registration is answered while the minting still waits.
abbrev session : List Event
session = reply 1 registered ∷ submit_asset ∷ submit_identity ∷ []

registered_toasts :
    (reply_register_identity example_engine registered initial_page).toasts
    ≡ success "Identity Registered On-Chain!"
        "DID: did:secure:alice-001 | Hash: 0123456789abcdef..."
      ∷ []
unfolding reply_register_identity take_identity text_of hash_start try_catch ◌>>=◌ lift modify get
    to_text slice_first? slice_first
registered_toasts = refl

page_after-InFlight_example : InFlight (page_after example_engine session)
page_after-InFlight_example = page_after-InFlight example_engine session

reply_register_identity-Tells_example :
    Tells registered
      (reply_register_identity example_engine registered initial_page).registered_identity
      initial_page.toasts
      (reply_register_identity example_engine registered initial_page).toasts
reply_register_identity-Tells_example =
    reply_register_identity-Tells example_engine registered initial_page

reply_mint_asa_asset-silent_iff_example :
    ((reply_mint_asa_asset example_engine rejected initial_page).toasts ≡ initial_page.toasts)
    ↔ IsRejected rejected
reply_mint_asa_asset-silent_iff_example =
    reply_mint_asa_asset-silent_iff example_engine rejected initial_page
