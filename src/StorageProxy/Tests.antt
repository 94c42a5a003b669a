-- ===== src/StorageProxy/Tests.antt =====
-- The proxy on a request for a stored image.
use block_chain.Common.{String, Bool, true, some, ◌≡◌, ◌↔◌, refl}
use block_chain.Js.{Value, string, object, field, end, integer, pos, Result, ok}
use block_chain.Js.Example.{example_engine}
use block_chain.Fetch.{Reply, answered}
use block_chain.StorageProxy.{
  plain, redirect, ForgeEnv, storage_proxy, drop_first_slash, drop_final_slashes,
}
use block_chain.StorageProxy.Asked.{request_of, signed_request, AsksFor, storage_proxy-asks_iff}
use block_chain.StorageProxy.Outcomes.{response_of, IsReady, Signs, storage_proxy-redirect_iff}

abbrev example_presign : String → String → Result String
example_presign base key = ok "https://forge.example.invalid/v1/storage/presign/get?path=logo.png"

abbrev every_header : Value → Bool
every_header v = true

abbrev configured : ForgeEnv
configured = record { api_url = some "https://forge.example.invalid//"; api_key = some "key" }

abbrev signed : Reply
signed = answered (record {
  ok = true;
  status = integer (pos 200);
  json = ok (object (field "url" (string "https://cdn.example.invalid/logo.png") end));
})

base_without_slashes :
    drop_final_slashes "https://forge.example.invalid//" ≡ "https://forge.example.invalid"
unfolding drop_final_slashes
base_without_slashes = refl

missing_key :
    response_of
      (storage_proxy example_engine example_presign every_header (some "/") configured)
      signed
    ≡ plain 400 "Missing storage key"
unfolding storage_proxy
missing_key = refl

storage_proxy-redirect_iff_example :
    (response_of
        (storage_proxy example_engine example_presign every_header (some "/logo.png") configured)
        signed
      ≡ redirect (string "https://cdn.example.invalid/logo.png"))
    ↔ (IsReady example_engine example_presign every_header (some "/logo.png") configured
        × Signs example_engine example_presign every_header signed
            (string "https://cdn.example.invalid/logo.png"))
storage_proxy-redirect_iff_example =
    storage_proxy-redirect_iff example_engine example_presign every_header (some "/logo.png")
      configured signed (string "https://cdn.example.invalid/logo.png")

storage_proxy-asks_iff_example :
    let request =
      signed_request "key" "https://forge.example.invalid/v1/storage/presign/get?path=logo.png" in
    (request_of
        (storage_proxy example_engine example_presign every_header (some "/logo.png") configured)
      ≡ some request)
    ↔ AsksFor example_engine example_presign every_header
        (drop_first_slash "/logo.png")
        (drop_final_slashes "https://forge.example.invalid//")
        "key"
        request
storage_proxy-asks_iff_example =
    storage_proxy-asks_iff example_engine example_presign every_header (some "/logo.png") configured
      (signed_request "key" "https://forge.example.invalid/v1/storage/presign/get?path=logo.png")
