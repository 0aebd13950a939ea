-- ===== src/Cmd.antt =====
-- The commands: cmd/mitra_localproxy, cmd/common, and what misc/server/cmd/mitra_tunneld routes.
pub mod Logger
pub mod Options
pub mod Modes
pub mod Accepted
pub mod Process
pub mod Console
