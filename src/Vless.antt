-- ===== src/Vless.antt =====
-- crates/vless: the profiles of the engines, their start, and the SOCKS client.
pub mod Names
pub mod Engine
pub mod Client
mod Tests
