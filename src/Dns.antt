-- ===== src/Dns.antt =====
-- crates/dns: the message cache (cache.rs), the choice of servers (policy.rs), and the exchange of
-- length-prefixed messages and the query builder (lib.rs).
pub mod Cache
pub mod Policy
pub mod Exchange
pub mod Query
mod Tests
