-- ===== src/Proxy.antt =====
-- proxy: the local side of a tunnel.
pub mod IdGen
pub mod Config
pub mod Sockets
pub mod Listener
pub mod Launch
pub mod Accepting
pub mod Bridge
pub mod Running
