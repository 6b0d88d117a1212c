-- ===== src/Eth.antt =====
-- Transactions of internal/maidenlaneeth: arguments from JSON to Go values of the types that an ABI
-- asks for (txn.go), and what is sent to the node (send.go).
pub mod Types
pub mod Numbers
pub mod Args
pub mod Params
pub mod Outputs
mod Post
pub mod Fits
mod Leaves
pub mod Sound
mod Calm
pub mod Panics
mod Integers
pub mod RoundTrip
pub mod Arguments
pub mod Hex
pub mod Send
pub mod Submit
pub mod Revert
pub mod Methods
pub mod Build
pub mod Messages
pub mod NilTx
mod HexText
mod Tests
