-- ===== src/Mempool.antt =====
-- The state of a node's mempool: src/mempool.rs, mempool/storage.rs and mempool/storage_memory.rs.
-- `Mempool` joins `MempoolStore` with the lanes and what was sent: messages, events and the tasks
-- that the node spawns. What the proof systems, sha3, borsh and blst give is `MempoolEnv`.
pub mod Outputs
pub mod Storage
pub mod Cars
pub mod Verify
pub mod Handlers
pub mod Blocks
pub mod OwnLane
mod Tests
use hyle.Prelude.{ℕ, ◌+◌, String, Bool, Option, List, map}
use hyle.Prelude.Exec.{Exec}
use hyle.Prelude.Map.{Map}
use hyle.Model.{
  TxHash, Bytes, ContractName, Verifier, ProgramId, ValidatorPublicKey, HyleOutput, TransactionData,
  Codec,
}
use hyle.Contracts.Staking.{Staking}
use hyle.Proposals.{
  DataProposalHash, LaneId, LaneBytesSize, SignedByValidator, AggregateSignature, Cut, Slot,
  ConsensusProposal,
}
use hyle.Consensus.{ConsensusError}

pub record DataProposal : Type 0 where
  pub parent_data_proposal_hash : Option DataProposalHash
  pub txs : List TransactionData

-- `ValidatorDAG`
abbrev pub ValidatorDag : Type 0
ValidatorDag = SignedByValidator (DataProposalHash × LaneBytesSize)

pub record LaneEntryMetadata : Type 0 where
  pub parent_data_proposal_hash : Option DataProposalHash
  pub cumul_size : LaneBytesSize
  pub signatures : List ValidatorDag

abbrev pub Entry : Type 0
Entry = LaneEntryMetadata × DataProposal

pub record LanesStorage : Type 0 where
  pub lanes_tip : Map LaneId (DataProposalHash × LaneBytesSize)
  pub by_hash : Map LaneId (Map DataProposalHash Entry)

pub data CanBePutOnTop : Type 0 where
  yes no already_on_top fork : CanBePutOnTop

pub data DataProposalVerdict : Type 0 where
  process empty wait vote refuse ignore : DataProposalVerdict

-- What the consensus commits.
pub record CommittedConsensusProposal : Type 0 where
  pub staking : Staking
  pub consensus_proposal : ConsensusProposal
  pub certificate : AggregateSignature

pub record BlockUnderConstruction : Type 0 where
  pub from : Option Cut
  pub ccp : CommittedConsensusProposal

pub data MempoolNetMessage : Type 0 where
  data_proposal : DataProposalHash → DataProposal → MempoolNetMessage
  data_vote : ValidatorDag → MempoolNetMessage
  poda_update : DataProposalHash → List ValidatorDag → MempoolNetMessage
  sync_request : Option DataProposalHash → Option DataProposalHash → MempoolNetMessage
  sync_reply : LaneEntryMetadata → DataProposal → MempoolNetMessage

-- `KnownContracts`
abbrev pub KnownContracts : Type 0
KnownContracts = Map ContractName (Verifier × ProgramId)

-- What goes out: messages, events, and the tasks that hash and check a data proposal off the main loop.
pub data MempoolOutput : Type 0 where
  broadcast : MempoolNetMessage → MempoolOutput
  send_to : ValidatorPublicKey → MempoolNetMessage → MempoolOutput
  started_building_blocks : Slot → MempoolOutput
  built_signed_block :
      List (LaneId × List DataProposal) → AggregateSignature → ConsensusProposal → MempoolOutput
  data_proposal_created : DataProposalHash → DataProposalHash → List TransactionData → MempoolOutput
  waiting_dissemination : DataProposalHash → TransactionData → MempoolOutput
  proof_task : TransactionData → MempoolOutput
  hash_task : LaneId → DataProposalHash → DataProposal → MempoolOutput
  processing_task : LaneId → DataProposal → KnownContracts → MempoolOutput

-- `None` is an error of the library.
pub record MempoolEnv : Type 0 where
  pub codec : Codec
  pub hashed : DataProposal → DataProposalHash
  pub estimate_size : TransactionData → ℕ
  pub tx_hash : TransactionData → TxHash
  pub proof_hash : Bytes → String
  pub key_text : ValidatorPublicKey → String
  pub sign : DataProposalHash × LaneBytesSize → Option ValidatorDag
  pub aggregate : DataProposalHash × LaneBytesSize → List ValidatorDag → Option AggregateSignature
  pub verify_proof : Bytes → Verifier → ProgramId → Option (List HyleOutput)
  pub verify_recursive_proof :
      Bytes → Verifier → ProgramId → Option (List ProgramId × List HyleOutput)
  pub validator_pubkey : ValidatorPublicKey

pub record Mempool : Type 0 where
  pub lanes : LanesStorage
  -- In order of insertion.
  pub waiting_dissemination_txs : List (TxHash × TransactionData)
  pub own_data_proposal_in_preparation : List DataProposal
  pub buffered_proposals : Map LaneId (List DataProposal)
  pub buffered_podas : Map LaneId (Map DataProposalHash (List (List ValidatorDag)))
  pub cached_dp_votes : Map (LaneId × DataProposalHash) DataProposalVerdict
  pub blocks_under_construction : List BlockUnderConstruction
  pub buc_build_start_height : Option Slot
  pub last_ccp : Option CommittedConsensusProposal
  pub staking : Staking
  pub known_contracts : KnownContracts
  pub outputs : List MempoolOutput

pub data MempoolError : Type 0 where
  unknown_lane unknown_dp already_in_lane unknown_parent creates_a_fork : MempoolError
  signing_failed wrong_hash unreachable unsigned_entry missing_dp too_many_blobs contract_unknown
        proof_fails not_a_proof out_of_fuel :
      MempoolError

abbrev pub M : Type 0 → Type 0
M A = Exec Mempool MempoolError A
