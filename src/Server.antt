-- ===== src/Server.antt =====
-- misc/server: the tunnel service.
pub mod Id
pub mod Tunnel
pub mod Store
pub mod World
pub mod Api
pub mod Peers
pub mod Running
pub mod Service
pub mod Binding
pub mod Routes
pub mod Startup
