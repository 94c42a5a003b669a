-- ===== src/AssetVerifier.antt =====
-- scripts/verify_asset.mjs and scripts/lib/asset_verifier.mjs: the command that checks an asset's record on
-- the chain against what is expected of it.
pub mod Arguments
pub mod Evidence
pub mod Command
pub mod Printed
pub mod Accepted
pub mod Expectations
pub mod ExitCode
mod Tests
