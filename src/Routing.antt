-- ===== src/Routing.antt =====
-- crates/routing: the networks that skip the tunnel (cidrs.rs), the plan of routes, and its
-- application and withdrawal (apply.rs).
pub mod Cidrs
pub mod Plan
pub mod Journal
mod Tests
