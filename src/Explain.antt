-- ===== src/Explain.antt =====
-- The teaching components of the dashboard: frontend/components/explain.
pub mod Why
pub mod Grid
pub mod Console
pub mod Tour
pub mod Timeline
pub mod Mode
mod Tests
