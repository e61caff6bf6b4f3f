-- ===== src/Chores.antt =====
-- backend/app/api/chores.py: chore definitions and their instances. The handlers stand in
-- `Transitions` (one instance) and `Definitions` (a series).
pub mod Responses
pub mod Listing
pub mod Wanted
pub mod Paging
pub mod Transitions
pub mod Definitions
pub mod Closings
pub mod Outcomes
pub mod Series
pub mod Requests
pub mod Accounting
pub mod Reassigning
pub mod Settled
pub mod Evolution
pub mod History
pub mod Once
pub mod Templates
