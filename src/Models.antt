-- ===== src/Models.antt =====
-- The contracts of src/adaptive_agent/models.py.
pub mod Refs
pub mod Tools
pub mod Usage
mod Tests
