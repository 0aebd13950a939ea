-- ===== src/Tests.antt =====
-- Runs of the operations and of their laws at concrete inputs.
mod Framing
pub mod Tunnels
pub mod Admission
mod Connections
mod Proxies
mod Clients
mod Services
pub mod Sessions
pub mod Launching
mod Commands
pub mod Handshakes
mod Openings
mod Rounds
mod Processes
mod Runnings
