-- ===== src/AssetVerifier/ExitCode.antt =====
-- The exit code of the command, over the arguments and the chain.
use block_chain.Common.{ℕ, String, List, ◌≡◌, ◌↔◌, ◌⊎◌, inl, inr, refl, arith}
use block_chain.Js.{Result, ok, thrown, returns, throws, Result-cases}
use block_chain.AssetVerifier.Arguments.{
  Expected, Parsed, asks_help, verifies, Formats, parse_verifier_args,
}
use block_chain.AssetVerifier.Evidence.{Reading, Assessment}
use block_chain.AssetVerifier.Command.{Chain, exit_of, read_chain, verify, run_parsed, verify_asset}
use block_chain.AssetVerifier.Expectations.{
  IsReadable, Matches, Confirms, assess_evidence-Confirms_iff,
}

module _ (f : Formats) (keccak256 : String → String) (show : ℕ → String)
    (connect : String → Chain) where
  -- The whole reading of the chain succeeds, and what is read meets what is expected.
  abbrev pub ConfirmedOnChain : Expected → Type 0
  ConfirmedOnChain expected =
      (r : Reading) × (read_chain expected (connect expected.rpc_url) ≡ ok r)
      × IsReadable f r
      × Matches f keccak256 expected r

  zero_sound :
      (r : Result Assessment) → (exit_of f keccak256 show connect r).exit_code ≡ 0 → Confirms r
  zero_sound (thrown e) h = absurd (omega arith)
  zero_sound (ok a) h = (a, refl, ground arith)

  zero_complete :
      (r : Result Assessment) → Confirms r → (exit_of f keccak256 show connect r).exit_code ≡ 0
  zero_complete r (a, same, verified) = rw (same, verified)

  verify_sound :
      (expected : Expected)
      → Confirms (verify f keccak256 show connect expected)
      → ConfirmedOnChain expected
  unfolding verify
  verify_sound expected c = elim (Result-cases (read_chain expected (connect expected.rpc_url))) [
    | throws e r ↦ let (a, same, verified) = c in cc (rw r at same)
    | returns reading r ↦
        let (readable, matches) =
          (assess_evidence-Confirms_iff f keccak256 show expected reading).0 (rw r at c) in
        (reading, r, readable, matches)
  ]

  verify_complete :
      (expected : Expected)
      → ConfirmedOnChain expected
      → Confirms (verify f keccak256 show connect expected)
  unfolding verify
  verify_complete expected (reading, r, readable, matches) =
      rw r ((assess_evidence-Confirms_iff f keccak256 show expected reading).1 (readable, matches))

  run_sound :
      (p : Result Parsed)
      → (run_parsed f keccak256 show connect p).exit_code ≡ 0
      → (p ≡ ok asks_help)
        ⊎ ((expected : Expected) × (p ≡ ok (verifies expected)) × ConfirmedOnChain expected)
  unfolding run_parsed
  run_sound (thrown e) h = absurd (omega arith)
  run_sound (ok asks_help) h = inl refl
  run_sound (ok (verifies expected)) h = inr (
    expected,
    refl,
    verify_sound expected (zero_sound (verify f keccak256 show connect expected) h),
  )

  run_complete :
      (p : Result Parsed)
      → (p ≡ ok asks_help)
        ⊎ ((expected : Expected) × (p ≡ ok (verifies expected)) × ConfirmedOnChain expected)
      → (run_parsed f keccak256 show connect p).exit_code ≡ 0
  unfolding run_parsed
  run_complete p (inl helps) = rw helps
  run_complete p (inr (expected, same, confirmed)) = rw same (
      zero_complete (verify f keccak256 show connect expected) (verify_complete expected confirmed))

  -- The command exits with 0 exactly when its arguments ask for help, or they are well formed, every read
  -- of the chain succeeds, there is code at the address and a known status, and the chain, the owner, the
  -- asset's id, its metadata hash and the hash of the code are the expected ones wherever one is expected.
  pub verify_asset-exit_code-eq-zero_iff :
      (argv : List String)
      → ((verify_asset f keccak256 show connect argv).exit_code ≡ 0) ↔ (
          (parse_verifier_args f argv ≡ ok asks_help)
          ⊎ ((expected : Expected) × (parse_verifier_args f argv ≡ ok (verifies expected))
              × ConfirmedOnChain expected))
  unfolding verify_asset
  verify_asset-exit_code-eq-zero_iff argv =
      (run_sound (parse_verifier_args f argv), run_complete (parse_verifier_args f argv))
