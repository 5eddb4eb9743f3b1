-- ===== src/CampaignStore.antt =====
-- experiments/campaign_store.py: the store of a campaign's plan and its progress. A method returns
-- its value and the tables as they are after it, or raises; a method that raises has written nothing,
-- since every check stands before the write and `initialize` writes inside one transaction. The
-- clock is an argument. `_create_schema`, `_integrity`, `close` and the connection are SQLite's part.
-- `Schema`, `Queries`, `Initialize` and `Methods` hold the definitions, the other children the proofs.
pub mod Schema
pub mod Queries
pub mod Initialize
pub mod Methods
pub mod Updates
pub mod Changes
pub mod Transitions
pub mod Totals
pub mod Plan
mod Tests
