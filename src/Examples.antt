-- ===== src/Examples.antt =====
-- An engine, libraries and a small database for backend/app, and the theorems applied to them.
pub mod Sorting
pub mod Secrets
pub mod Samples
pub mod Services
pub mod Chores
pub mod Scheduler
pub mod Tokens
pub mod Emails
pub mod Households
pub mod Accounts
pub mod Jobs
pub mod Listings
