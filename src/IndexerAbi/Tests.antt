-- ===== src/IndexerAbi/Tests.antt =====
-- Decoders that the theorem is run on.
use block_chain.Common.{String, true, [], ◌∷◌, ◌≡◌, refl, ◌↔◌}
use block_chain.Js.{ok}
use block_chain.Js.Example.{example_engine}
use block_chain.AuditApi.{is_space, hex_digits}
use block_chain.IndexerAbi.{Files, match_all, match_spec, validate}
use block_chain.IndexerAbi.Agreement.{Passes, IsAgreed, validate_iff}

abbrev topic : String
topic = "0x00112233445566778899aabbccddeeff00112233445566778899aabbccddeeff"

abbrev decoder : String
decoder =
    "A = _EventSpec(\"AssetMinted\",\n  \"0x00112233445566778899aabbccddeeff00112233445566778899aabbccddeeff\")"

finds_the_event : match_all 0 decoder ≡ ("AssetMinted", topic) ∷ []
unfolding match_all match_spec is_space hex_digits
finds_the_event = refl

abbrev files : Files
files = record {
  artifact_exists = true;
  interface = ok (record {
    fragments = ("function", "mint") ∷ ("event", "AssetMinted") ∷ [];
    topic_hash = λ name. ok topic;
  });
  decoder = ok decoder;
}

abbrev lower_example : String → String
lower_example s = s

validate_iff_example :
    Passes (validate example_engine lower_example "missing" files)
    ↔ IsAgreed example_engine lower_example files
validate_iff_example = validate_iff example_engine lower_example "missing" files
