-- ===== src/Tokens.antt =====
-- app/temp_access.py: access tokens, their video quota and points, and the reservations of tasks.
pub mod Entry
pub mod Quota
pub mod Admin
pub mod AdminLaws
pub mod History
pub mod Conservation
pub mod Reservations
pub mod Payment
pub mod Held
pub mod Refunds
pub mod Once
mod Tests
