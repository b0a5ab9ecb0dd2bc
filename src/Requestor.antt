-- ===== src/Requestor.antt =====
-- Calling the application's webhooks: lib/utils/base-requestor.js, lib/utils/http-requestor.js and
-- lib/utils/ws-requestor.js.
pub mod Policy
pub mod Retry
mod Retrying
pub mod Socket
mod InFlight
mod Settling
mod Abandoned
pub mod Line
pub mod Queueing
pub mod Muted
mod Examples
