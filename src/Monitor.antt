-- ===== src/Monitor.antt =====
-- The `monitor` module: progress signals and the reaction to them (src/monitor/).
pub mod Signal
pub mod Progress
pub mod Handler
pub mod Timing
pub mod Recovery
