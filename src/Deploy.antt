-- ===== src/Deploy.antt =====
-- contracts/scripts/deploy.ts: the script that deploys the platform's contract.
pub mod Environment
pub mod Policy
pub mod Script
pub mod Gate
pub mod Checked
pub mod Complete
pub mod Told
pub mod Recorded
mod Tests
