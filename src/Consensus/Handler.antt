-- ===== src/Consensus/Handler.antt =====
-- Events and messages of the consensus: `handle_net_message`, `on_validator_candidacy`,
-- `handle_node_state_event`, `handle_command` and the two ends of `wait_genesis` in src/consensus.rs.
use hyle.Prelude.{ℕ, ◌||◌, ◌&&◌, Option, none, some, List, [], ◌∷◌, ◌++◌, if◌then◌else◌, ltb}
use hyle.Prelude.Exec.{Done, pure, bail, reading, modify, ◌>>=◌, ◌>>◌}
use hyle.Prelude.Key.{◌==◌, string_key}
use hyle.Prelude.Word.{add_u64}
use hyle.Model.{ValidatorPublicKey, bytes_key}
use hyle.NodeState.Block.{Block}
use hyle.Contracts.Staking.{is_bonded, get_stake, min_stake, process_block}
use hyle.Proposals.{
  TimestampMs, Cut, ConsensusProposal, ConsensusProposalHash, SignedByValidator, AggregateSignature,
  ValidatorCandidacy, default_proposal,
}
use hyle.Consensus.Messages.{
  ConsensusNetMessage, prepare, prepare_vote, confirm, confirm_ack, commit, timeout,
  timeout_certificate, validator_candidacy, sync_request, sync_reply, genesis_ticket,
}
use hyle.Consensus.{
  Env, Consensus, not_enough_stake, not_staking, M, joining, leader_tag, follower_tag,
  commit_consensus_proposal, start_new_slot_command,
}
use hyle.Consensus.Round.{
  send, set_tag, is_joining, is_leader, is_part_of_consensus, round_leader, run_staking,
  schedule_next,
}
use hyle.Consensus.Timeout.{on_timeout, on_timeout_certificate, on_timeout_tick}
use hyle.Consensus.Follower.{on_prepare, on_confirm, on_commit, on_sync_request}
use hyle.Consensus.Leader.{start_round, on_prepare_vote, on_confirm_ack}

-- `ConsensusCommand`
pub data ConsensusCommand : Type 0 where
  timeout_tick : ConsensusCommand
  starts_new_slot : Option TimestampMs → ConsensusCommand

unfoldable pub on_validator_candidacy : SignedByValidator ValidatorCandidacy → M Done
unfolding is_part_of_consensus is_bonded get_stake
on_validator_candidacy candidacy = reading (λ s.
    if is_part_of_consensus s candidacy.validator || is_bonded s.staking candidacy.validator
    then pure tt
    else elim (get_stake s.staking candidacy.validator) [
      | none ↦ bail not_staking
      | some staked ↦
          if ltb staked min_stake
          then bail not_enough_stake
          else modify
              (λ t. record t { validator_candidates = t.validator_candidates ++ candidacy ∷ [] })
    ])

module _ (env : Env) where
  -- `sender` is the validator of the message's header.
  unfoldable pub handle_net_message : ℕ → ValidatorPublicKey → ConsensusNetMessage → M Done
  unfolding on_prepare on_prepare_vote on_confirm on_confirm_ack on_commit on_timeout
      on_timeout_certificate on_validator_candidacy on_sync_request
  handle_net_message fuel sender (prepare cp ticket view) =
      on_prepare env fuel (sender, cp, ticket, view)
  handle_net_message fuel sender (prepare_vote vote) = on_prepare_vote env vote
  handle_net_message fuel sender (confirm qc hash) = on_confirm env qc hash
  handle_net_message fuel sender (confirm_ack ack) = on_confirm_ack env ack
  handle_net_message fuel sender (commit qc hash) = on_commit env qc hash
  handle_net_message fuel sender (timeout signed kind) = on_timeout env signed kind
  handle_net_message fuel sender (timeout_certificate qc kind slot view) =
      on_timeout_certificate env qc kind slot view
  handle_net_message fuel sender (validator_candidacy candidacy) = on_validator_candidacy candidacy
  handle_net_message fuel sender (sync_request hash) = on_sync_request env sender hash
  handle_net_message fuel sender (sync_reply message) = on_prepare env fuel message

  unfoldable pub handle_command : Option Cut → ConsensusCommand → M Done
  unfolding on_timeout_tick start_round
  handle_command mempool_cut timeout_tick = on_timeout_tick env
  handle_command mempool_cut (starts_new_slot may_delay) = start_round env may_delay mempool_cut

  -- A joining node follows the blocks.
  unfoldable pub catch_up : Block → ConsensusProposalHash → Consensus → Consensus
  catch_up block hash s =
      if is_joining s.state_tag && ltb s.staking_updated_to block.block_height
      then record s {
        staking_updated_to = block.block_height;
        slot = add_u64 block.block_height 1;
        view = 0;
        parent_hash = hash;
        current_proposal = record default_proposal { slot = block.block_height };
        timeouts = record s.timeouts { requests = [] };
      }
      else s

  -- A block of the node state, with its hash and the validators that it bonds.
  unfoldable pub handle_node_state_event :
      Block → ConsensusProposalHash → List ValidatorPublicKey → M Done
  unfolding run_staking process_block catch_up
  handle_node_state_event block hash new_bounded_validators = do
    run_staking env (λ staking. process_block staking block.staking_actions new_bounded_validators)
    modify (catch_up block hash)

  -- The genesis block, once the node state has processed it.
  unfoldable pub on_genesis_block :
      ConsensusProposal → ConsensusProposalHash → AggregateSignature → M Done
  unfolding round_leader send
  on_genesis_block proposal hash certificate = do
    modify (λ s. record s { parent_hash = hash; slot = 1; view = 0 })
    leader ← round_leader
    (if leader == env.validator_pubkey then set_tag leader_tag else set_tag follower_tag)
    reading (λ s. send (commit_consensus_proposal s.staking proposal certificate))

  unfoldable pub on_no_genesis : M Done
  unfolding schedule_next
  on_no_genesis = do set_tag joining; schedule_next env

  -- What follows both.
  unfoldable pub begin : M Done
  unfolding send
  begin = reading (λ s.
      if is_leader s.state_tag
      then (do
        modify (λ t. record t { leader = record t.leader { pending_ticket = some genesis_ticket } })
        send (start_new_slot_command none))
      else pure tt)
