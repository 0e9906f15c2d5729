-- ===== src/AccessQuota.antt =====
-- The purchases of access quota that the Task clients share: ln_church_agent/access_quota.py.
pub mod Types
pub mod Account
pub mod Exchange
pub mod Paid
pub mod PaidRun
pub mod Spending
mod Tests
