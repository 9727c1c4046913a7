-- ===== src/Sdk.antt =====
-- The browser SDK, frontend/sdk/FeatureFlagClient.ts.
pub mod Hash
pub mod Client
pub mod Reconcile
pub mod Stream
pub mod Init
pub mod Log
pub mod System
pub mod CatchUp
pub mod Outage
pub mod Deaf
pub mod Late
pub mod Streams
mod Tests
