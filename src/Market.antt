-- ===== src/Market.antt =====
-- The handle marketplace (backend/marketplace*.go).
pub mod State
pub mod Tables
pub mod Store
pub mod World
pub mod Settlement
pub mod Walk
pub mod Watchers
pub mod Kept
pub mod Expiry
pub mod Runs
pub mod Intents
pub mod Handlers
pub mod Submissions
mod Examples
