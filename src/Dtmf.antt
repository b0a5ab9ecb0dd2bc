-- ===== src/Dtmf.antt =====
-- Collecting the digits that a caller keys in.
pub mod DigitBuffer
pub mod Collector
mod Buffering
mod Matching
mod Examples
