-- ===== src/Broker.antt =====
-- The tool broker of src/adaptive_agent/broker.py: `request_tool_call` and `reconcile_run` over
-- the tables of the store and a provider whose own state is the world that tools act on.
pub mod Capability
pub mod Dispatch
pub mod Request
pub mod Reconcile
pub mod Authority
pub mod History
pub mod Keeps
pub mod Approvals
pub mod Replay
pub mod Repeat
pub mod Reread
pub mod Keys
pub mod Fixtures
mod Tests
