-- ===== src/Budget.antt =====
-- The session ledger of a payment policy: ln_church_agent/client.py and ln_church_agent/models.py.
pub mod Types
pub mod Ledger
pub mod Sums
pub mod Reserve
pub mod States
pub mod Resolve
pub mod Steps
pub mod Cap
pub mod Bound
pub mod Evidence
pub mod Restore
pub mod Run
pub mod Phases
pub mod PhaseSteps
pub mod Sessions
pub mod History
pub mod Isolation
pub mod EvidenceLaws
pub mod RestoreLaws
pub mod SettledSteps
pub mod Settled
pub mod RestoredOnce
pub mod Identity
mod Tests
