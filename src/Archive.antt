-- ===== src/Archive.antt =====
-- crates/griffr-runtime/src/download/extractor: archives in several volumes.
pub mod Ranges
pub mod Names
pub mod Layout
pub mod Availability
pub mod Requests
pub mod Registration
pub mod Remote
mod Examples
