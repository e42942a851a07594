-- ===== src/Experiment.antt =====
-- The experiment lifecycle, src/adaptive_agent/experiment_lifecycle.py. A receipt is the mapping
-- that a callback returns; the texts of the errors are left out.
pub mod Outcome
pub mod Policy
pub mod Receipts
pub mod Checks
pub mod Lifecycle
pub mod Facts
pub mod Complete
pub mod Order
mod Tests
