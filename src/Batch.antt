-- ===== src/Batch.antt =====
-- The executor of scheduled HTTP GET batches, which writes the Task journal before every request:
-- ln_church_agent/scheduled_http_get_batch.py.
pub mod Types
pub mod Manifest
pub mod Targets
pub mod Execute
pub mod Keeps
pub mod History
pub mod Once
pub mod Attempts
mod Tests
