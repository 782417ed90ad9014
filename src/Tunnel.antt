-- ===== src/Tunnel.antt =====
-- internal/tunnelagent: the kubectl tunnel.
pub mod Message
pub mod Registry
pub mod Pump
pub mod Headers
pub mod Relay
