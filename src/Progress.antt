-- ===== src/Progress.antt =====
-- crates/griffr-runtime/src/progress.rs: the outcome of every path and the bytes that are moved.
pub mod Outcomes
pub mod RunningBytes
mod Examples
