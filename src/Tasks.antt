-- ===== src/Tasks.antt =====
-- app/store.py: the life of a task. Each task has a record of metadata; the handlers change it under
-- the lock of the task, so each is one step.
pub mod Meta
pub mod Create
pub mod Update
pub mod Retry
pub mod Event
pub mod Lifecycle
pub mod Bounds
pub mod Claims
pub mod Outcome
mod Tests
