-- ===== src/Promotion.antt =====
-- src/adaptive_agent/candidate.py: candidate bundles, their promotion past the gate, and rollback,
-- over the tables of src/adaptive_agent/store.py.
pub mod Memory
pub mod Candidates
pub mod Promote
pub mod History
pub mod Swaps
pub mod Pointer
pub mod Reported
pub mod Approval
pub mod Lineage
pub mod Protocols
mod Tests
