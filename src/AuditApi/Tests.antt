-- ===== src/AuditApi/Tests.antt =====
-- Responses that the client's theorems are run on.
use block_chain.Common.{String, true, List, some, ◌≡◌, ◌↔◌, refl}
use block_chain.Js.{
  Value, string, boolean, object, array, nil, cons, end, field, number, integer, pos, ok,
}
use block_chain.Js.Example.{example_engine}
use block_chain.Fetch.{Reply, answered}
use block_chain.AuditApi.{
  AuditEvent, canonical, is_audit_event, Filters, list_audit_events, api_base_url,
}
use block_chain.AuditApi.Contract.{Conforms, is_audit_event_iff}
use block_chain.AuditApi.Client.{
  Returns, IsConfigured, AcceptedEvents, IsFailing, IsBlank, list_audit_events-Returns_iff,
  list_audit_events-api_base_url-fails_iff,
}

abbrev sample_event : Value
sample_event = object (
    field "event_id" (string "event-1") (
      field "chain_id" (number (integer (pos 31337))) (
        field "contract_address" (string "0x1111111111111111111111111111111111111111") (
          field "transaction_hash"
            (string "0x2222222222222222222222222222222222222222222222222222222222222222")
            (field "log_index" (number (integer (pos 0))) (
              field "block_number" (number (integer (pos 1))) (
                field "event_name" (string "IdentityRegistered")
                  (field "projection_status" (string "canonical") end))))))))

abbrev sample_reply : Reply
sample_reply = answered (record {
  ok = true;
  status = integer (pos 200);
  json = ok (
      object (
        field "projection_only" (boolean true)
          (field "events" (array (cons sample_event nil)) end)));
})

accepted : is_audit_event sample_event ≡ true
unfolding is_audit_event
accepted = refl

is_audit_event_iff_example :
    (is_audit_event sample_event ≡ true) ↔ ((e : AuditEvent) × Conforms sample_event e)
is_audit_event_iff_example = is_audit_event_iff sample_event

abbrev encode_example : List (String × String) → String
encode_example pairs = "limit=10"

abbrev ten : Filters
ten = record { limit = integer (pos 10); projection_status = some canonical }

list_audit_events-Returns_iff_example :
    Returns
      (list_audit_events example_engine encode_example (some "https://api.example.invalid") ten)
      sample_reply
      (array (cons sample_event nil))
    ↔ (IsConfigured (some "https://api.example.invalid")
        × AcceptedEvents sample_reply (array (cons sample_event nil)))
list_audit_events-Returns_iff_example =
    list_audit_events-Returns_iff example_engine encode_example (some "https://api.example.invalid")
      ten sample_reply (array (cons sample_event nil))

list_audit_events-api_base_url-fails_iff_example :
    IsFailing (list_audit_events example_engine encode_example (api_base_url (some " / ")) ten)
    ↔ IsBlank (some " / ")
list_audit_events-api_base_url-fails_iff_example =
    list_audit_events-api_base_url-fails_iff example_engine encode_example (some " / ") ten
