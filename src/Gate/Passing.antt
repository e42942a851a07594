-- ===== src/Gate/Passing.antt =====
-- What a passing gate of src/adaptive_agent/performance_gate.py has found: nothing in any check.
pub mod Improvement
pub mod Safety
pub mod Regression
