-- ===== src/Retrieval.antt =====
-- Retrieval of sources for a learner's context: src/adaptive_agent/retrieval.py.
pub mod Sources
pub mod Search
pub mod Sound
pub mod Admitted
pub mod Admission
pub mod Distinct
pub mod Bounded
pub mod Citations
mod Tests
