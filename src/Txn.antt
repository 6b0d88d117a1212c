-- ===== src/Txn.antt =====
-- The transaction processor, internal/maidenlanetx/txnprocessor.go: nonces, the transactions in
-- flight, and the replies.
pub mod State
pub mod Env
pub mod Add
pub mod Cancel
pub mod Reply
pub mod Flow
pub mod Lock
pub mod Nonces
pub mod Gaps
pub mod Added
pub mod Ids
pub mod Undo
pub mod Replies
pub mod Settles
pub mod Sends
mod Tests
