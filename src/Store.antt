-- ===== src/Store.antt =====
-- The tables of src/adaptive_agent/store.py. Each method is one SQL transaction, so it is one
-- function on the tables; a row is a record, and a table the list of its rows in insertion order.
pub mod ToolCalls
pub mod Allocations
pub mod TaskRuns
mod Tests
