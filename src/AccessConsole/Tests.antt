-- ===== src/AccessConsole/Tests.antt =====
-- A denied request.
use block_chain.Common.{true, [], ◌∷◌, ◌≡◌, refl}
use block_chain.Js.{string, object, end, field, integer, pos, ok, get}
use block_chain.Js.Example.{example_engine}
use block_chain.Js.Effects.{◌>>=◌, lift, modify, try_catch}
use block_chain.Fetch.{Reply, answered}
use block_chain.Home.Page.{error}
use block_chain.AccessConsole.{initial_console, announce, reply_evaluate}
use block_chain.AccessConsole.Outcomes.{Announces, reply_evaluate-Announces}

abbrev denied : Reply
denied = answered (record {
  ok = true;
  status = integer (pos 200);
  json = ok (object (field "decision" (string "DENIED") end));
})

denied_toasts :
    (reply_evaluate example_engine denied initial_console).toasts
    ≡ error "Access DENIED by PyTeal Policy!" ∷ []
unfolding reply_evaluate announce get try_catch ◌>>=◌ lift modify
denied_toasts = refl

reply_evaluate-Announces_example :
    Announces example_engine denied initial_console
      (reply_evaluate example_engine denied initial_console)
reply_evaluate-Announces_example = reply_evaluate-Announces example_engine denied initial_console
