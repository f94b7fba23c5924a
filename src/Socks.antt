-- ===== src/Socks.antt =====
-- crates/socks: the handshakes of the local proxy (socks5.rs, socks4.rs, server.rs, error.rs).
pub mod Socks5
pub mod Socks4
mod Tests
