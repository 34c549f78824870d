-- ===== src/Optimistic.antt =====
-- client/optimistic.ts: the client's cache of pages, items and pending writes.
pub mod Types
pub mod Order
pub mod Window
pub mod Refs
pub mod Changes
pub mod Families
pub mod QueryKey
pub mod Pages
pub mod Patch
pub mod Pending
pub mod Envelope
pub mod Overlay
pub mod Views
pub mod Snapshot
pub mod Occurs
pub mod Counts
pub mod Aligned
pub mod Every
pub mod Distinct
pub mod Deletion
pub mod Stale
pub mod Invariant
pub mod Reachable
pub mod Ordered
pub mod Eviction
pub mod Coherent
pub mod Shown
