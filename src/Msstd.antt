-- ===== src/Msstd.antt =====
-- libs/msstd: strings, bits, lists, threads, processes and memory.
pub mod Text
pub mod Base64
pub mod Bits
pub mod MsList
pub mod Process
pub mod Pool
pub mod Tracker
