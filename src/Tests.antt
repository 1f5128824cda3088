-- ===== src/Tests.antt =====
-- Runs and examples.
pub mod Packets
pub mod Hash
pub mod Queue
pub mod Text
pub mod Clock
pub mod Csv
pub mod Output
pub mod Config
pub mod Input
pub mod Cbor
pub mod Run
pub mod Capture
pub mod Dump
pub mod Pipeline
