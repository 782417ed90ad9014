-- ===== src/Command.antt =====
-- internal/command: the dispatcher of control-plane commands and its journal.
pub mod Fault
pub mod Identity
pub mod Dispatcher
pub mod Journal
pub mod Handlers
