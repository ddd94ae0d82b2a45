-- ===== src/Tests.antt =====
-- Runs of the definitions at concrete inputs, and the theorems at inputs that meet their
-- hypotheses.
pub mod Demo
mod Interleavings
mod Schemes
mod Sessions
mod Hubs
mod Concurrency
mod Relays
mod Webhooks
mod Others
pub mod Clients
mod Clientsets
mod Fakes
mod Programs
