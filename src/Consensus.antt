-- ===== src/Consensus.antt =====
-- The state of a node's consensus and what its methods share: src/consensus.rs. `Consensus` joins
-- `BFTRoundState` with the candidates and what was sent on the bus, which always accepts. What the
-- configuration, the clock, sha3, borsh and blst give is `Env`. Header signatures are left out.
pub mod Messages
pub mod Round
pub mod Timeout
pub mod Checks
pub mod Follower
pub mod Leader
pub mod Handler
pub mod Stable
pub mod Runs
pub mod Quorums
pub mod Markers
pub mod Certified
pub mod Position
pub mod HighestQc
mod Tests
use hyle.Prelude.{
  ◌≡◌, not, ℕ, ◌+◌, ◌-◌, ◌*◌, ◌%◌, ◌<◌, String, Bool, true, false, ◌&&◌, ◌||◌, Option, none, some,
  List, [], ◌∷◌, ◌++◌, map, if◌then◌else◌, all, any, length, ltb, nat_eq, is_some, unwrap_or,
  Result, ok, err,
}
use hyle.Prelude.Exec.{
  Exec, Done, pure, bail, lift, gets, reading, ok_or, modify, require, ◌>>=◌, ◌>>◌,
}
use hyle.Prelude.Key.{◌==◌, string_key}
use hyle.Prelude.Word.{u64_mod, add_u64, add_u128, mul_u128}
use hyle.Prelude.Map.{Map}
use hyle.Model.{Bytes, ValidatorPublicKey, bytes_key, BlockHeight}
use hyle.Contracts.Staking.{
  Staking, StakingError, bond, get_stake, min_stake, compute_voting_power, compute_f, pay_for_dadi,
  distribute_fees,
}
use hyle.Proposals.{
  Slot, View, TimestampMs, ConsensusProposalHash, SignedByValidator, AggregateSignature, Cut,
  ValidatorCandidacy, ConsensusStakingAction, bonds, pays_fees_for_dadi, ConsensusProposal,
}
use hyle.Consensus.Messages.{
  SignedContent, prepare_vote_content, confirm_ack_content, CommitQc, PrepareQc, PrepareVote,
  ConfirmAck, ConsensusTimeout, Ticket, genesis_ticket, forced_commit_qc, commit_qc, timeout_qc,
  Prepare, ConsensusNetMessage, validator_candidacy,
}

-- `utils/conf.rs`
pub data TimestampCheck : Type 0 where
  full monotonic no_check : TimestampCheck

-- What the handler of one event uses of the world around it. `None` is an error of blst.
pub record Env : Type 0 where
  pub encode : SignedContent → Bytes
  pub verify_aggregate : AggregateSignature → Bytes → Option Bool
  pub verify : Bytes → ValidatorPublicKey → Bytes → Option Bool
  pub sign : Bytes → Option Bytes
  pub aggregate : Bytes → List (Bytes × ValidatorPublicKey) → Option AggregateSignature
  pub hashed : ConsensusProposal → ConsensusProposalHash
  pub validator_pubkey : ValidatorPublicKey
  pub choose : List ValidatorPublicKey → Option ValidatorPublicKey
  pub now : TimestampMs
  pub timeout_after : ℕ
  pub slot_duration : ℕ
  pub timestamp_checks : TimestampCheck
  pub public_address : String

-- `Step`
pub data LeaderStep : Type 0 where
  start_new_slot at_prepare_vote at_confirm_ack : LeaderStep

pub record LeaderState : Type 0 where
  pub step : LeaderStep
  pub prepare_votes : List PrepareVote
  pub confirm_ack : List ConfirmAck
  pub pending_ticket : Option Ticket

abbrev pub default_leader : LeaderState
default_leader = record {
  step = start_new_slot;
  prepare_votes = [];
  confirm_ack = [];
  pending_ticket = none;
}

pub record BufferedPrepares : Type 0 where
  pub prepares : Map ConsensusProposalHash Prepare
  pub children : Map ConsensusProposalHash ConsensusProposalHash

pub record FollowerState : Type 0 where
  pub buffered_quorum_certificate : Option CommitQc
  pub buffered_prepares : BufferedPrepares

pub data TimeoutState : Type 0 where
  inactive certificate_emitted : TimeoutState
  scheduled : TimestampMs → TimeoutState

pub record TimeoutRoleState : Type 0 where
  pub requests : List ConsensusTimeout
  pub timeout_state : TimeoutState
  pub highest_seen_prepare_qc : Option (Slot × PrepareQc)

pub data StateTag : Type 0 where
  joining leader_tag follower_tag : StateTag

-- What goes out on the bus.
pub data Output : Type 0 where
  broadcast : ConsensusNetMessage → Output
  send_to : ValidatorPublicKey → ConsensusNetMessage → Output
  commit_consensus_proposal : Staking → ConsensusProposal → CommitQc → Output
  start_new_slot_command : Option TimestampMs → Output
  -- A task that sends the command after a delay.
  delayed_start_new_slot : ℕ → TimestampMs → Output
  connect_to : String → Output

pub record Consensus : Type 0 where
  pub staking : Staking
  pub slot : Slot
  pub view : View
  pub parent_hash : ConsensusProposalHash
  pub parent_timestamp : TimestampMs
  pub parent_cut : Cut
  pub current_proposal : ConsensusProposal
  pub leader : LeaderState
  pub follower : FollowerState
  pub timeouts : TimeoutRoleState
  pub staking_updated_to : BlockHeight
  pub state_tag : StateTag
  pub validator_candidates : List (SignedByValidator ValidatorCandidacy)
  pub sent : List Output

pub data ConsensusError : Type 0 where
  of_staking : StakingError → ConsensusError
  not_synchronized genesis_not_accepted no_next_leader no_bonded_validator : ConsensusError
  invalid_certificate certificate_error foreign_signers not_enough_power : ConsensusError
  not_enough_stake not_staking not_signed crypto_error : ConsensusError
  genesis_after_first_slot invalid_ticket wrong_slot wrong_view wrong_leader : ConsensusError
  missing_lane unknown_lane size_not_growing poda_without_power invalid_poda : ConsensusError
  timestamp_too_old timestamp_too_late malformed_dadi_fees : ConsensusError
  proposal_mismatch changes_voting_power not_current_slot wrong_proposal_slot : ConsensusError
  wrong_step not_leader no_ticket wrong_proposal mixed_timeouts out_of_fuel panicked :
      ConsensusError

abbrev pub M : Type 0 → Type 0
M A = Exec Consensus ConsensusError A
