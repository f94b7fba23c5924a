-- ===== src/Udpgw.antt =====
-- crates/udpgw: UDP datagrams multiplexed over one stream. Proto is the wire format
-- (crates/udpgw/src/proto.rs), Client the flow table (crates/udpgw/src/client.rs).
pub mod Proto
pub mod Client
mod Tests
