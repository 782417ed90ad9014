-- ===== src/Status.antt =====
-- internal/status: status updates of watched resources.
pub mod Streamer
pub mod Health
pub mod Watches
