-- ===== src/Git.antt =====
-- internal/git: the targets of writes to a state repository, the interface of their provider, and the
-- in-memory provider.
pub mod Target
pub mod Memory
pub mod Provider
pub mod GitHub
