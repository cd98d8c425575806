-- ===== src/Tests.antt =====
-- Runs of the definitions at concrete inputs.
pub mod World
pub mod Client
pub mod ConfigBackup
pub mod Plan
pub mod Enroll
pub mod Times
pub mod Groups
pub mod Jobs
pub mod Endpoint
pub mod Tools
