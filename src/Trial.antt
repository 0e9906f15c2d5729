-- ===== src/Trial.antt =====
-- The paid service trial: one purchase for a Claim, and the journal that fences it.
-- ln_church_agent/paid_service_trial.py and ln_church_agent/paid_service_trial_journal.py
pub mod Types
pub mod Journal
pub mod Purchase
pub mod Changes
pub mod Fence
pub mod Once
pub mod History
pub mod Final
pub mod Lift
pub mod Money
pub mod Settled
pub mod Reservation
mod Tests
