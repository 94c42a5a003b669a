-- ===== src/OpenBanking.antt =====
-- pages/OpenBankingDashboard.tsx of the web application: the dashboard's state, its handlers, and
-- the events that the browser delivers. A handler is cut where it awaits a reply: its first part
-- sends the request and leaves a job, and the job's reply runs the rest. A job holds what the
-- rest reads from the closure of the render that started it.
pub mod Page
pub mod Payload
pub mod Handlers
pub mod Replies
pub mod Events
pub mod Frame
pub mod Sent
pub mod Token
pub mod Provenance
pub mod Authorization
pub mod Notification
pub mod Refresh
mod Tests
