-- ===== src/Controller.antt =====
-- internal/controller: the agent lifecycle.
pub mod Routing
pub mod Identity
pub mod Config
