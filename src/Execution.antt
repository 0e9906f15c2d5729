-- ===== src/Execution.antt =====
-- The execution of one paid HTTP request: `Payment402Client._execute_detailed_internal` and its
-- helpers (ln_church_agent/client.py), over the session ledger.
pub mod Types
pub mod Navigate
pub mod Attempt
pub mod Rounds
pub mod Keeps
pub mod Checks
pub mod AttemptKeeps
pub mod RoundKeeps
pub mod Policy
pub mod Trying
pub mod Attempted
pub mod Failed
pub mod Spending
pub mod QuietSteps
pub mod Paid
pub mod Once
pub mod Orders
pub mod Keys
pub mod KeyLaws
mod Tests
