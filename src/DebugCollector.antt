-- ===== src/DebugCollector.antt =====
-- apps/web/public/__manus__/debug-collector.js: the script that records the console, the network and the
-- user's actions in the browser, and posts them to the log collector of the development server.
pub mod Sanitize
pub mod Elements
pub mod Store
pub mod Console
pub mod Network
pub mod Xhr
pub mod Report
pub mod Session
pub mod Recordings
pub mod Kept
pub mod Bounded
pub mod Redacted
pub mod Restored
pub mod Delivered
pub mod Recorded
pub mod Masked
mod Tests
