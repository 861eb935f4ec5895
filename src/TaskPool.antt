-- ===== src/TaskPool.antt =====
-- crates/griffr-runtime/src/task_pool: the bounded scheduler of one command.
pub mod Config
pub mod Request
pub mod Resources
pub mod Admission
pub mod Queue
pub mod Graph
mod Examples
