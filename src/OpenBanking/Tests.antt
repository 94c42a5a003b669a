-- ===== src/OpenBanking/Tests.antt =====
-- Sessions of the dashboard that the theorems are run on.
use block_chain.Common.{true, false, List, [], ◌∷◌, ◌++◌, ◌≡◌, inr, refl, All}
use block_chain.Js.{
  Value, string, boolean, object, array, nil, end, field, integer, pos, truthy, get, to_text, ok,
}
use block_chain.Js.Example.{example_engine}
use block_chain.Js.Effects.{try_catch}
use block_chain.Fetch.{Reply, answered, refused}
use block_chain.OpenBanking.Page.{
  Page, initial_page, fetch_bank_data, refresh_data, show_notification,
}
use block_chain.OpenBanking.Payload.{is_granted}
use block_chain.OpenBanking.Replies.{reply_evaluate_access}
use block_chain.OpenBanking.Events.{
  Event, reply, click_evaluate_access, click_fetch_bank_data, notification_timeout, step,
  page_after,
}
use block_chain.OpenBanking.Token.{Decides, reply_evaluate_access-token}
use block_chain.OpenBanking.Provenance.{GrantedIn, page_after-jwt_token}
use block_chain.OpenBanking.Authorization.{Authorized, page_after-sent}
use block_chain.OpenBanking.Notification.{
  timeouts, page_after-timeouts-hidden, show_notification-timeout,
}
use block_chain.OpenBanking.Refresh.{round, round_requests, round-refresh_data}

abbrev success : Value → Reply
success v = answered (record { ok = true; status = integer (pos 200); json = ok v })

abbrev grant : Reply
grant = success (object (field "allowed" (boolean true) (field "access_token" (string "t1") end)))

abbrev offline : Reply
offline = refused (record { name = "TypeError"; message = "Failed to fetch" })

-- The access is evaluated and granted, and the bank is called; the newest event is first.
abbrev granted_session : List Event
granted_session = click_fetch_bank_data ∷ reply 1 grant ∷ click_evaluate_access ∷ []

page_after-sent_example :
    All (Authorized example_engine granted_session) (page_after example_engine granted_session).sent
page_after-sent_example = page_after-sent example_engine granted_session

page_after-jwt_token_example :
    GrantedIn example_engine (page_after example_engine granted_session).jwt_token granted_session
unfolding page_after get to_text try_catch is_granted
page_after-jwt_token_example = page_after-jwt_token example_engine granted_session refl

-- A new evaluation fails while a token is held.
abbrev authorized_page : Page
authorized_page = record initial_page { jwt_token = string "t1" }

reply_evaluate_access-token_example :
    Decides example_engine offline
      (string "t1")
      (reply_evaluate_access example_engine "0x1" offline authorized_page).jwt_token
reply_evaluate_access-token_example =
    reply_evaluate_access-token example_engine "0x1" offline authorized_page

page_after-timeouts-hidden_example :
    truthy
      (page_after example_engine
        (timeouts (page_after example_engine granted_session).timers granted_session)).notification
    ≡ false
page_after-timeouts-hidden_example = page_after-timeouts-hidden example_engine granted_session

abbrev shown_page : Page
shown_page = record initial_page { notification = string "first"; timers = 1 }

show_notification-timeout_example :
    let q =
      step example_engine notification_timeout (show_notification (string "second") shown_page) in
    (q.notification ≡ string "") × (q.timers ≡ 1)
show_notification-timeout_example =
    show_notification-timeout example_engine (string "second") shown_page refl

abbrev listed : Reply
listed = success (object (field "audit_logs" (string "log") end))

-- A bank call is under way when the round starts.
abbrev calling_page : Page
calling_page = record initial_page { pending = fetch_bank_data "0x1" ∷ [] }

round-refresh_data_example :
    round example_engine 1 grant offline listed listed grant (refresh_data "0x1" calling_page)
    ≡ record calling_page {
      identity_status =
          object (field "allowed" (boolean true) (field "access_token" (string "t1") end));
      consents = array nil;
      organizations = array nil;
      audit_logs = string "log";
      audit_stats =
          object (field "allowed" (boolean true) (field "access_token" (string "t1") end));
      sent = initial_page.sent ++ round_requests "0x1";
    }
unfolding get
round-refresh_data_example =
    round-refresh_data example_engine "0x1" calling_page grant offline listed listed grant _ _ _ _ _
      (inr (_, refl, refl, refl)) refl (inr (_, refl, refl, (_, refl, refl)))
      (inr (_, refl, refl, (_, refl, refl))) (inr (_, refl, refl, refl))
