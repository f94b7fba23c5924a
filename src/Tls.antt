-- ===== src/Tls.antt =====
-- crates/tls: the pool of idle transports (pool.rs).
pub mod Pool
mod Tests
