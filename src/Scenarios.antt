-- ===== src/Scenarios.antt =====
-- Runs of the model on concrete inputs, one file per component.
mod Commands
mod Journals
mod Streams
mod Capabilities
mod Tunnels
mod Statuses
mod Writes
mod Handlers
mod Relays
mod Clusters
mod Starts
