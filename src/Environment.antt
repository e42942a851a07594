-- ===== src/Environment.antt =====
-- src/adaptive_agent/environment.py: the registry of environments and the schema validator.
pub mod Pointer
pub mod Schema
pub mod Registry
mod Tests
