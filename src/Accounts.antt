-- ===== src/Accounts.antt =====
-- app/accounts.py: the accounts on outside platforms, the quota that each has for a day, and the one
-- task that each may run.
pub mod Ledger
pub mod Account
pub mod Charges
pub mod Select
pub mod Claim
pub mod Quota
pub mod Event
pub mod Consistency
pub mod InOrder
pub mod Kept
pub mod Invariant
pub mod Order
pub mod Preference
pub mod Best
pub mod Refund
pub mod Give
pub mod Repay
pub mod Limit
mod Tests
