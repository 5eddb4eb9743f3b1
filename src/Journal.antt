-- ===== src/Journal.antt =====
-- storage/sqlite_journal.py: the journal of a replay. Statements run under one lock and each method
-- commits, so a method is one step on the tables.
pub mod Schema
pub mod Methods
pub mod Reads
pub mod Recording
pub mod Kept
pub mod AppendOnly
pub mod Runs
pub mod Order
mod Tests
