-- ===== src/Safety.antt =====
-- No handler faults: mutexes are taken in one order, reads stay within their arrays, and the
-- nesting of messages is bounded.
pub mod Rules
pub mod Inv
pub mod Log
mod Motor
mod Plant
mod Environment
mod Autonomous
mod Route
pub mod Publish
pub mod Run
pub mod Overrun
