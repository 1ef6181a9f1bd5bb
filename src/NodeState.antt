-- ===== src/NodeState.antt =====
-- crates/hyle-modules/src/node_state.rs and its modules.
pub mod OrderedTxMap
pub mod Timeouts
pub mod Changes
pub mod Registration
pub mod Tld
pub mod Proof
pub mod Settle
pub mod Block
pub mod Store
pub mod ContractUpdates
pub mod Nukes
pub mod Settled
pub mod UntilDone
pub mod BlobTx
pub mod BlockHandler
pub mod Fixtures
mod Tests
