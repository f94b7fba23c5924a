-- ===== src/Websocket.antt =====
-- crates/websocket/src/ws.rs and http_upgrade.rs: the upgrade, and the frames behind it.
pub mod Frame
pub mod Upgrade
pub mod Base64
pub mod HttpUpgrade
mod Tests
