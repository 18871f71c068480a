-- ===== src/Tests.antt =====
-- The theorems at concrete inputs, and runs of the model.
pub mod Systems
pub mod Samples
pub mod Sessions
pub mod Writes
pub mod Outcomes
pub mod Ccsqlite
pub mod Quote
pub mod Fields
pub mod Disk
pub mod Text
pub mod Lists
pub mod Pool
pub mod Blocks
pub mod Process
