-- ===== src/Tunnel.antt =====
-- crates/tunnel: what connects, and what it publishes while it does.
pub mod State
pub mod Servers
pub mod Full
pub mod Start
pub mod Upstream
pub mod Manager
pub mod Accepted
mod Tests
