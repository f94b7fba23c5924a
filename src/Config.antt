-- ===== src/Config.antt =====
-- crates/config: the profile (model.rs) and its check (validate.rs).
pub mod Model
pub mod Validate
pub mod MessagePack
pub mod SmartLink
mod Tests
