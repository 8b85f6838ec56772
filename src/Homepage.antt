-- ===== src/Homepage.antt =====
-- apps/api/app/vnext/homepage/recent_series.py: the recent series of the home page.
pub mod Model
pub mod Select
pub mod Service
pub mod Calls
pub mod Requests
pub mod Cooldown
pub mod Joins
pub mod Failures
pub mod Ends
pub mod Quiet
pub mod Selected
pub mod Candidates
pub mod Redis
pub mod Stored
pub mod Refines
pub mod Decoded
pub mod Writes
mod Tests
