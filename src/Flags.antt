-- ===== src/Flags.antt =====
-- The flag editor of the dashboard: frontend/components/flags and frontend/app/flags.
pub mod Users
pub mod Form
pub mod Slider
pub mod Detail
pub mod List
pub mod Queries
pub mod Live
pub mod Creation
mod Tests
