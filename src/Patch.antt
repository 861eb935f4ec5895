-- ===== src/Patch.antt =====
-- crates/griffr-runtime/src/patch_apply: the order in which the entries of a patch plan are applied.
pub mod Plan
pub mod Dependencies
pub mod Writers
pub mod Consumers
pub mod Outgoing
pub mod Frontiers
pub mod Start
pub mod Acyclic
pub mod Waves
pub mod Scheduled
pub mod Complete
pub mod EntryWaves
pub mod Cycles
pub mod Space
pub mod Peaks
mod Examples
