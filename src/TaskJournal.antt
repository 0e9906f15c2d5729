-- ===== src/TaskJournal.antt =====
-- The durable journal of a scheduled Task execution: ln_church_agent/task_journal.py.
pub mod Types
pub mod Validate
pub mod Mutate
pub mod Store
pub mod Atomic
pub mod Frozen
pub mod Progress
mod Tests
