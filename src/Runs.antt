-- ===== src/Runs.antt =====
-- Runs, steps and evidence: src/adaptive_agent/controller.py over the tables runs, steps and
-- evidence of src/adaptive_agent/store.py.
pub mod Tables
pub mod Control
pub mod History
pub mod Operations
pub mod Numbering
pub mod Evidence
pub mod Claims
pub mod Visible
pub mod Repeated
pub mod Outcomes
pub mod Execute
pub mod Executed
pub mod Endings
mod Tests
