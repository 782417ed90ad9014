-- ===== src/Stream.antt =====
-- internal/stream: the outbound event stream.
pub mod Backoff
pub mod Cause
pub mod Supervisor
pub mod Rotation
pub mod Liveness
pub mod Sequence
