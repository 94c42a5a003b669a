-- ===== src/BundleBudget/Tests.antt =====
-- Builds that the theorem is run on.
use block_chain.Common.{List, [], ◌∷◌, ◌≡◌, ◌↔◌, refl}
use block_chain.Js.{ok}
use block_chain.Js.Example.{example_engine}
use block_chain.BundleBudget.{Asset, of_kind, ends_with, size_of, check_bundle}
use block_chain.BundleBudget.Within.{IsWithin, check_bundle_iff}

abbrev built : List Asset
built =
    record { name = "index.js"; raw_bytes = 440000; gzip_bytes = 120000 }
    ∷ record { name = "index.css"; raw_bytes = 12000; gzip_bytes = 3000 }
    ∷ []

counts_scripts : size_of (λ a. a.raw_bytes) (of_kind ".js" built) ≡ 440000
unfolding size_of of_kind ends_with
counts_scripts = refl

check_bundle_iff_example : (check_bundle example_engine built ≡ ok tt) ↔ IsWithin built
check_bundle_iff_example = check_bundle_iff example_engine built
