-- ===== src/Framing.antt =====
-- How the body of an immediate visit's response is framed.
-- ln_church_agent/network_fetch.py, `_visit_framing`
pub mod Fields
pub mod Decimal
pub mod Accepted
mod Tests
