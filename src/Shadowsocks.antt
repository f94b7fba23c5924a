-- ===== src/Shadowsocks.antt =====
-- crates/shadowsocks: Shadowsocks over AEAD. The cipher, HKDF and MD5 are parameters.
pub mod Addr
pub mod Aead
pub mod Pump
mod Tests
