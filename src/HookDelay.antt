-- ===== src/HookDelay.antt =====
-- lib/utils/action-hook-delay.js: what a caller hears while the application is slow to answer. Times
-- are in seconds, 0 where one is missing. What `normalizeJambones` and `makeTask` make of an action
-- enters as an argument of the timer's callback.
pub mod State
pub mod Timers
pub mod Turns
pub mod Retries
pub mod Stopping
mod Examples
