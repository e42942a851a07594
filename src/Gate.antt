-- ===== src/Gate.antt =====
-- src/adaptive_agent/performance_gate.py: the decision whether a candidate may be promoted.
pub mod Values
pub mod Reasons
pub mod Checks
pub mod Environments
pub mod Decision
pub mod Parts
pub mod Passing
pub mod Fixtures
mod Tests
