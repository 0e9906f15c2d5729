-- ===== src/Macaroon.antt =====
-- The check of an L402 macaroon before an invoice is paid: its packet stream and its caveats.
-- ln_church_agent/payment_contract.py, `validate_l402_macaroon_structure`
pub mod Packets
pub mod Split
pub mod Format
pub mod Complete
pub mod Encode
pub mod Sequence
pub mod Shape
mod Tests
