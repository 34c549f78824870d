-- ===== src/Examples.antt =====
-- The theorems at concrete inputs.
mod Fixtures
mod Cache
mod Ordering
mod Writes
mod Chunks
mod Delivery
mod Manager
mod Repair
