-- ===== src/Tests.antt =====
-- Concrete states, and the theorems of the other modules applied to them.
mod Fixtures
mod Carts
mod Enrollments
mod CourseLife
mod Accounts
mod Feedback
mod Replays
mod Teachers
mod Discoveries
mod Aids
mod Gates
mod Rosters
mod Analyses
mod Shelves
mod Ledgers
