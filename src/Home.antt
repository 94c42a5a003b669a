-- ===== src/Home.antt =====
-- apps/web/src/pages/Home.tsx: the platform's first page as a machine of its state, its requests and
-- the events that the browser delivers.
pub mod Page
pub mod Handlers
pub mod Texts
pub mod Replies
pub mod Events
pub mod Kinds
pub mod Frame
pub mod InFlight
pub mod Outcomes
mod Tests
