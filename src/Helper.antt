-- ===== src/Helper.antt =====
-- The privileged helper: its requests (crates/tun/src/ipc.rs), the system that it changes and the
-- clients that it serves (services/privileged-helper/src/main.rs).
pub mod Spec
pub mod Frame
pub mod System
pub mod Serve
mod Tests
