-- ===== src/Lib.antt =====
-- Hyli node and contracts: the core logic of the repository's Rust crates.
--
-- The program. A block carries blob transactions, each a list of blobs for contracts, and proofs
-- of their execution. The node state keeps the registered contracts, the transactions that are not
-- settled yet and a schedule of timeouts; it settles a transaction when every blob has a proof that
-- holds in the state that the blobs before it left. A contract is a state and a function that runs an
-- action on it; what it commits to is what the node compares. The consensus agrees, slot by slot, on
-- proposals: a leader sends one with a ticket, which shows how the slot or view before it ended, and
-- gathers two rounds of votes with a quorum of the stakes; a node whose timer runs out asks for the
-- next view.
--
-- The files and what they model (paths from the repository's root):
-- - Prelude: results, maps, sets and machine integers, with their laws. Prelude/Exec has the methods
--   that change a state and may fail: an error keeps what was changed before it, as `?` does.
-- - Model: crates/hyle-model/src/contract.rs, transaction.rs, node/data_availability.rs.
-- - NodeState/OrderedTxMap: crates/hyle-modules/src/node_state/ordered_tx_map.rs. `remove` is
--   `remove_tx`. Queues, Coherent, Preserve and Next hold the proofs.
-- - NodeState/Timeouts: node_state/timeouts.rs (`drop`, `set` are `drop_at`, `set_timeout`) and
--   `get_tx_timeout_window` of node_state.rs.
-- - NodeState/Registration: node_state/contract_registration.rs.
-- - NodeState/Changes, Tld, Proof, Settle: the settlement of node_state.rs and
--   node_state/hyle_tld.rs. `settle_blobs_recursively` is `settle_blobs`: a recursion on the blobs
--   (with no fuel, since each call is on the blobs that are left), whose loop over the proofs is
--   `try_proofs`. Settle/Relation states, with no order of search, which settlements are allowed.
-- - NodeState/Block, Store: what the node reports of a block (crates/hyle-model/src/block.rs), its
--   state and one attempt to settle a transaction (`try_to_settle_blob_tx`).
-- - NodeState/ContractUpdates, Nukes, Settled: `on_settled_blob_tx`.
-- - NodeState/UntilDone: `settle_txs_until_done`. Its fuel is the number of unsettled transactions,
--   since each settlement takes one of them and nothing adds one: see UntilDone/Fuel. The loop of a
--   deletion, `time_out_all`, has the same fuel: see Settled/Deletion.
-- - NodeState/BlobTx: `handle_blob_tx`, with `validate_identity` of crates/hyle-model/src/transaction.rs
--   and `validate_hyle_contract_blobs` of node_state/hyle_tld.rs.
-- - NodeState/BlockHandler: `handle_blob_proof`, `clear_timeouts`, `handle_signed_block`.
-- - NodeState/Fixtures, NodeState/Tests: data and runs.
-- - Sdk: crates/contract-sdk/src/utils.rs and caller.rs. Callers and Callees hold the proofs, and
--   Callees says what it is to account for each blob.
-- - Contracts/Hyllar: the ERC-20 token, crates/contracts/hyllar/src/lib.rs and erc20.rs. Ledger,
--   Transfer and Reachable hold the proofs.
-- - Contracts/Amm: crates/contracts/amm/src/lib.rs. Reserves, Quotes and Payments hold
--   the proofs.
-- - Contracts/Staking: crates/contracts/staking/src/lib.rs, state.rs and fees.rs (`stake` is
--   `stake_amount`, `deposit_for_fees` and `distribute` of the fees are `deposit` and
--   `distribute_fees`; fees.rs is FeeState). Delegations and FeeBalance hold the proofs.
-- - Contracts/Hydentity: crates/contracts/hydentity/src/lib.rs and identity_provider.rs. The error
--   of a registration keeps the state that it leaves, which the contract's caller puts back
--   (`FullStateRevert`). Ids and Nonces hold the proofs.
-- - Proposals: what is signed and agreed on, crates/hyle-model/src/node/consensus.rs, crypto.rs and
--   mempool.rs.
-- - Consensus: the state of a node, src/consensus.rs, and in Messages, Round, Timeout, Checks,
--   Follower, Leader and Handler the messages of src/consensus/network.rs and every method of
--   consensus.rs, role_timeout.rs, role_follower.rs, role_sync.rs and role_leader.rs, under their
--   names. Round/Certificates and Follower/Tickets hold a part of their parents. A long method is
--   cut where its source branches. What is sent on the bus is a list in the state. `on_prepare`
--   calls itself on the next buffered prepare and `buffer_prepare_message_and_fetch_missing_parent`
--   follows parents: both have fuel, an argument of `handle_net_message`, and running out is an
--   error of its own. The source has no bound here, so that the fuel is left free.
-- - Consensus/Stable: how an invariant passes from the elementary changes of the state to the
--   handlers. Certified, Position and HighestQc are instances, along the runs of Consensus/Runs.
--   Quorums and Markers are about the certificates.
-- - Contracts/Staking/Members, Power: the voting power of a set of validators.
-- - Mempool: the state of a node's mempool, src/mempool.rs. Storage: the lanes of
--   src/mempool/storage.rs and storage_memory.rs. Cars: `get_latest_car` and the cut that is
--   proposed. Verify: the check of the proofs of a data proposal, mempool/verify_tx.rs, whose
--   `verify_proof` and `verify_recursive_proof` (mempool/verifiers.rs, the proof systems) are
--   fields of `Mempool.MempoolEnv`. Handlers: the verdicts, votes and signatures of verify_tx.rs,
--   own_lane.rs and mempool.rs. Blocks: mempool/block_construction.rs. OwnLane: the transactions
--   that come in and the data proposals made of them, own_lane.rs. The walks down a lane have fuel:
--   more than each size in the lane, since a parent is smaller than its child. The loop that cleans
--   a lane has as much as the lane has entries, and two.
-- - Contracts/Tests, Contracts/StakingTests, Contracts/IdentityTests, Consensus/Tests,
--   Mempool/Tests: runs.
--
-- Conventions. A `HashMap` and a `BTreeMap` are association lists in key order. An error is the
-- `bail!` that it comes from, without the values that its message prints. Machine integers wrap as
-- they do in release builds. Logs and metrics are left out. Borsh, hashing, signatures and the proof
-- systems are third-party code: what the node uses of them are the fields of `Model.Codec`.
--
-- Not modelled: the synchronisation and dissemination of the mempool, the network and the header
-- signatures of its messages, the storage on disk, the indexer and the clients.
pub mod Consensus
pub mod Contracts
pub mod Mempool
pub mod Model
pub mod NodeState
pub mod Prelude
pub mod Proposals
pub mod Sdk
