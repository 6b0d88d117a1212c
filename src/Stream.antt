-- ===== src/Stream.antt =====
-- Event streams, internal/maidenlaneevents/eventstream.go and the high water marks of logprocessor.go:
-- what a stream is configured to do, and how its dispatcher and its processor deliver batches.
pub mod Spec
pub mod State
pub mod Steps
pub mod Holds
pub mod Moves
pub mod Order
pub mod Sound
pub mod Marks
pub mod Updates
pub mod Poll
pub mod Kv
pub mod Subscriptions
pub mod Manager
pub mod Mirrors
pub mod Resets
mod Tests
mod PollTests
