-- ===== src/Memberships.antt =====
-- app/users.py: the memberships that a user bought, of which one at a time runs.
pub mod State
pub mod View
pub mod Sync
pub mod Loop
pub mod Entry
pub mod Purchase
pub mod Bought
mod Tests
