-- ===== src/Ssh.antt =====
-- crates/ssh: the requests for the list of zones and their answers (zones.rs).
pub mod Chunked
pub mod Zones
pub mod Request
pub mod Response
pub mod Exchange
mod Tests
