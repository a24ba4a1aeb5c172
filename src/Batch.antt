-- ===== src/Batch.antt =====
-- app/batch_jobs.py: jobs of many rows, each of which becomes a task.
pub mod Job
pub mod Rows
pub mod Revision
pub mod Event
pub mod Cancel
pub mod Delta
mod Tests
