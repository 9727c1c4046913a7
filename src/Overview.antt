-- ===== src/Overview.antt =====
-- The overview of the dashboard: frontend/components/overview.
pub mod Propagation
pub mod Stats
pub mod View
pub mod Average
mod Tests
