-- ===== src/Dispatch.antt =====
-- app/store.py: a task that is too old is expired, and a worker claims the next task that waits.
pub mod Expire
pub mod Claim
pub mod Waiting
pub mod Kept
pub mod Loop
pub mod Burst
pub mod Granted
pub mod Once
mod Tests
