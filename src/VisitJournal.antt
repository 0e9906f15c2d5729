-- ===== src/VisitJournal.antt =====
-- The durable journal of an immediate visit: ln_church_agent/immediate_visit_journal.py.
pub mod Types
pub mod Methods
pub mod Keeps
pub mod Laws
mod Tests
