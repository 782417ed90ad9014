-- ===== src/Capability.antt =====
-- internal/capability: the aggregator of discovered capabilities.
pub mod Chunks
pub mod Checksum
pub mod Snapshot
pub mod Replay
pub mod Image
