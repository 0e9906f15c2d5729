-- ===== src/Grants.antt =====
-- The local diagnosis of a grant token: ln_church_agent/grants.py, `diagnose_grant_token`.
pub mod Diagnose
pub mod Usable
mod Tests
