-- ===== src/Rest.antt =====
-- The REST side of internal/maidenlanerest: the receipts that replies leave, the queries for them, and
-- the webhooks that pass requests straight to the transaction processor.
pub mod Json
pub mod Memory
pub mod Store
pub mod Receipts
pub mod Queries
pub mod Direct
pub mod Capacity
pub mod Checks
pub mod Posting
pub mod Traces
pub mod Acknowledged
mod Tests
mod PostingTests
