-- ===== src/LogCollector.antt =====
-- vite.config.ts: the development server's plugin that collects the browser's logs in files.
pub mod Trim
pub mod Write
pub mod Middleware
pub mod Kept
pub mod Bounds
mod Tests
