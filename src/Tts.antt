-- ===== src/Tts.antt =====
-- The buffer of streamed text to speech, lib/utils/tts-streaming-buffer.js.
pub mod Scan
pub mod Buffer
pub mod Feed
mod Bounds
mod Queue
mod Respace
mod Sending
mod Parts
mod Counted
pub mod System
mod Invariant
mod Accepting
mod Moves
mod Order
mod Termination
mod Paired
mod Pressure
mod Examples
