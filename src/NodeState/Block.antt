-- ===== src/NodeState/Block.antt =====
-- crates/hyle-model/src/block.rs and node/data_availability.rs: what the node reports of a block. An
-- event's text is the error that it prints. The fields that are copied from the signed block are left
-- out: parent_hash, hash, block_timestamp and new_bounded_validators.
use hyle.Prelude.{ℕ, String, Option, List, [], ◌++◌}
use hyle.Prelude.Key.{string_key}
use hyle.Prelude.Map.{Map, insert, get_or}
use hyle.Model.{
  BlobIndex, BlockHeight, Bytes, ContractName, HandledBlobProofOutput, Identity, ProgramId,
  RegisterContractEffect, StakingAction, StateCommitment, TimeoutWindow, TxHash,
  UnsettledBlobTransaction, ValidatorPublicKey,
}
use hyle.NodeState.Changes.{Error}
use hyle.NodeState.Settle.{SettleEvent}

-- Why a transaction is not settled yet.
pub data SettleError : Type 0 where
  tx_not_found contracts_not_registered not_ready_to_settle not_next_to_settle : SettleError

-- Why a transaction or a proof is refused.
pub data HandleError : Type 0 where
  invalid_identity no_blobs invalid_hyle_blobs unknown_contracts : HandleError
  blob_tx_not_found blob_not_found : HandleError
  invalid_output : Error → HandleError

pub data TransactionStateEvent : Type 0 where
  sequenced settled_event settled_as_failed timed_out dropped_as_duplicate : TransactionStateEvent
  error_event : HandleError → TransactionStateEvent
  new_proof : BlobIndex → TxHash → Bytes → TransactionStateEvent
  settle_event : SettleEvent → TransactionStateEvent
  failed_to_settle : SettleError → TransactionStateEvent

-- The parent data proposal's hash, and the transaction's.
abbrev pub TxId : Type 0
TxId = String × TxHash

pub record Block : Type 0 where
  pub block_height : BlockHeight
  pub txs : List TxId
  pub dp_parent_hashes : Map TxHash String
  pub lane_ids : Map TxHash ValidatorPublicKey
  pub successful_txs : List TxHash
  pub failed_txs : List TxHash
  pub timed_out_txs : List TxHash
  pub dropped_duplicate_txs : List TxId
  pub blob_proof_outputs : List HandledBlobProofOutput
  pub verified_blobs : List (TxHash × BlobIndex × Option ℕ)
  pub staking_actions : List (Identity × StakingAction)
  pub registered_contracts : Map ContractName (TxHash × RegisterContractEffect × Option Bytes)
  pub deleted_contracts : Map ContractName TxHash
  pub updated_states : Map ContractName StateCommitment
  pub updated_program_ids : Map ContractName ProgramId
  pub updated_timeout_windows : Map ContractName TimeoutWindow
  pub transactions_events : Map TxHash (List TransactionStateEvent)

-- The block that `handle_signed_block` starts from.
abbrev pub empty_block : BlockHeight → Block
empty_block height = record {
  block_height = height;
  txs = [];
  dp_parent_hashes = [];
  lane_ids = [];
  successful_txs = [];
  failed_txs = [];
  timed_out_txs = [];
  dropped_duplicate_txs = [];
  blob_proof_outputs = [];
  verified_blobs = [];
  staking_actions = [];
  registered_contracts = [];
  deleted_contracts = [];
  updated_states = [];
  updated_program_ids = [];
  updated_timeout_windows = [];
  transactions_events = [];
}

-- `transactions_events.entry(h).or_default()`, with what is pushed to it.
unfoldable pub push_events : TxHash → List TransactionStateEvent → Block → Block
push_events h events b = record b {
  transactions_events =
      insert h (get_or h b.transactions_events [] ++ events) b.transactions_events;
}

-- The two entries that say where a transaction comes from.
unfoldable pub note_origin : TxHash → UnsettledBlobTransaction → Block → Block
note_origin h tx b = record b {
  dp_parent_hashes = insert h tx.parent_dp_hash b.dp_parent_hashes;
  lane_ids = insert h tx.tx_context.lane_id b.lane_ids;
}

-- The same entries, `or_default()`.
unfoldable pub touch_origin : TxHash → Block → Block
touch_origin h b = record b {
  dp_parent_hashes = insert h (get_or h b.dp_parent_hashes "") b.dp_parent_hashes;
  lane_ids = insert h (get_or h b.lane_ids []) b.lane_ids;
}
