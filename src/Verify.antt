-- ===== src/Verify.antt =====
-- sdk/src/verify.ts: calls of the contracts through the Soroban RPC. The RPC server and the clock are
-- a parameter, the record `Server`; what the SDK decides on their answers is modelled.
pub mod Errors
pub mod Server
pub mod Decode
pub mod Poll
pub mod Config
pub mod Simulate
pub mod Outcome
pub mod Verified
pub mod History
pub mod Filter
pub mod Thrown
pub mod Registry
pub mod Batch
pub mod Samples
pub mod Tests
pub mod BatchTests
