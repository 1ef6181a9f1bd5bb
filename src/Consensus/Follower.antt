-- ===== src/Consensus/Follower.antt =====
-- A follower of a round: src/consensus/role_follower.rs and role_sync.rs. `on_prepare` calls itself on
-- the next prepare that is buffered, and the search for a missing parent follows the hashes of the
-- buffered parents: both have fuel.
pub mod Tickets
unfoldable pub use Tickets.*
use hyle.Prelude.{
  not, ℕ, zero, suc, ◌+◌, ◌-◌, ◌%◌, Bool, true, false, ◌&&◌, ◌||◌, Option, none, some, [],
  if◌then◌else◌, any, retain, ltb, leb, nat_eq, is_some,
}
use hyle.Prelude.Exec.{Done, pure, bail, lift, reading, ok_or, modify, require, ◌>>=◌, ◌>>◌}
use hyle.Prelude.Key.{◌==◌, string_key}
use hyle.Prelude.Word.{u64_mod, add_u64}
use hyle.Prelude.Map.{insert}
use hyle.Model.{ValidatorPublicKey, bytes_key}
use hyle.Proposals.{
  View, ConsensusProposalHash, AggregateSignature, ConsensusStakingAction, bonds,
  pays_fees_for_dadi, ConsensusProposal, proposal_eq, aggregate_eq,
}
use hyle.Consensus.Messages.{
  prepare_vote_content, confirm_ack_content, CommitQc, PrepareQc, TimeoutQc, TcKind,
  nil_certificate, prepare_certificate, Ticket, genesis_ticket, forced_commit_qc, commit_qc,
  timeout_qc, Prepare, prepare_vote, confirm_ack, sync_request, sync_reply,
}
use hyle.Consensus.{
  Env, Consensus, proposal_mismatch, changes_voting_power, not_current_slot,
  genesis_after_first_slot, invalid_ticket, wrong_slot, wrong_view, wrong_leader, out_of_fuel, M,
  BufferedPrepares, StateTag, joining, leader_tag, follower_tag, broadcast, send_to,
}
use hyle.Consensus.Round.{
  send, set_tag, is_joining, round_leader, current_slot_prepare_is_present, is_part_of_consensus,
  get, next_prepare, verify_quorum_certificate, sign_content, advance_round,
  verify_commit_quorum_certificate_against_current_proposal, emit_commit_event,
}
use hyle.Consensus.Checks.{verify_poda, verify_timestamp, verify_staking_actions}
use hyle.Consensus.Timeout.{verify_tc, update_highest_seen_prepare_qc}

-- The hash of the parent that is asked for, or `none` where the chain reaches the current proposal;
-- `none` outside where the fuel ran out.
unfoldable pub missing_parent :
    ℕ
    → BufferedPrepares
    → ConsensusProposalHash
    → ConsensusProposalHash
    → Option (Option ConsensusProposalHash)
unfolding get
missing_parent zero buffer current missing = none
missing_parent (suc fuel) buffer current missing = elim (get buffer missing) [
  | none ↦ some (some missing)
  | some prep ↦
      let rest = missing_parent fuel buffer current prep.1.parent_hash in
      if missing == current then some none else rest
]

module _ (env : Env) where
  unfoldable pub buffer_prepare_message_and_fetch_missing_parent : ℕ → Prepare → M Done
  unfolding push_prepare missing_parent send get
  buffer_prepare_message_and_fetch_missing_parent fuel message = do
    reading (λ s.
        if is_some (get s.follower.buffered_prepares (env.hashed message.1))
        then pure tt
        else push_prepare env message)
    reading (λ s. do
      missing ← ok_or out_of_fuel (
          missing_parent fuel s.follower.buffered_prepares (env.hashed s.current_proposal)
            message.1.parent_hash)
      elim missing [
        | none ↦ pure tt
        | some hash ↦
            elim (env.choose (retain (λ v. not (v == env.validator_pubkey)) s.staking.bonded)) [
              | some peer ↦ send (send_to peer (sync_request hash))
              | none ↦ send (broadcast (sync_request hash))
            ]
      ])

  -- The checks that come before a vote; the answer is the leader of the round.
  unfoldable pub check_prepare : Prepare → M ValidatorPublicKey
  unfolding round_leader verify_poda verify_staking_actions verify_timestamp
  check_prepare message = do
    reading (λ s. require (nat_eq message.1.slot s.slot) wrong_slot)
    reading (λ s. require (nat_eq message.3 s.view) wrong_view)
    round_leader ← round_leader
    require (message.0 == round_leader) wrong_leader
    reading (λ s. lift (verify_poda env s.staking s.parent_cut message.1))
    verify_staking_actions env message.1.cut message.1.staking_actions
    reading (λ s. lift (verify_timestamp env s.parent_timestamp s.view message.1))
    pure round_leader

  unfoldable pub send_vote : ValidatorPublicKey → ConsensusProposalHash → M Done
  unfolding is_part_of_consensus sign_content send
  send_vote leader cp_hash = reading (λ s.
      if is_part_of_consensus s env.validator_pubkey
      then (do
        vote ← sign_content env cp_hash (prepare_vote_content cp_hash)
        send (send_to leader (prepare_vote vote)))
      else pure tt)

  unfoldable pub accept_proposal : Prepare → M Done
  unfolding push_prepare
  accept_proposal message = do
    modify (λ s. record s { current_proposal = message.1 })
    push_prepare env message

  unfoldable pub on_prepare : ℕ → Prepare → M Done
  unfolding enter_prepare process_ticket buffer_prepare_message_and_fetch_missing_parent
      check_prepare accept_proposal next_prepare send_vote
  on_prepare zero message = bail out_of_fuel
  on_prepare (suc fuel) message = do
    goes_on ← enter_prepare env message
    reading (λ s. if not goes_on || ltb message.1.slot s.slot then pure tt else (do
      processed ← process_ticket env message.1 message.2 message.3
      (if not processed then buffer_prepare_message_and_fetch_missing_parent fuel message else (do
        leader ← check_prepare message
        accept_proposal message
        reading (λ t.
            let cp_hash = env.hashed message.1 in
            elim (next_prepare t.follower.buffered_prepares cp_hash) [
              | some next ↦ on_prepare fuel next
              | none ↦ send_vote leader cp_hash
            ])))))

  unfoldable pub acknowledge : ConsensusProposalHash → M Done
  unfolding is_part_of_consensus round_leader sign_content send
  acknowledge hash = reading (λ s.
      if is_part_of_consensus s env.validator_pubkey
      then (do
        leader ← round_leader
        ack ← sign_content env hash (confirm_ack_content hash)
        send (send_to leader (confirm_ack ack)))
      else pure tt)

  unfoldable pub confirm_as : StateTag → PrepareQc → ConsensusProposalHash → M Done
  unfolding verify_quorum_certificate update_highest_seen_prepare_qc acknowledge
  confirm_as follower_tag qc hash = reading (λ s.
      if not (hash == env.hashed s.current_proposal) then pure tt else (do
        verify_quorum_certificate env (prepare_vote_content hash) qc
        modify
            (λ t. record t { timeouts = (update_highest_seen_prepare_qc t.timeouts t.slot qc).0 })
        acknowledge hash))
  confirm_as joining qc hash = pure tt
  confirm_as leader_tag qc hash = pure tt

  unfoldable pub on_confirm : PrepareQc → ConsensusProposalHash → M Done
  unfolding confirm_as
  on_confirm qc hash = reading (λ s. confirm_as s.state_tag qc hash)

  unfoldable pub synchronize : ConsensusProposal → CommitQc → M Done
  unfolding verify_commit_quorum_certificate_against_current_proposal emit_commit_event
      advance_round
  synchronize potential_proposal qc = do
    modify (λ t. record t { current_proposal = potential_proposal })
    verify_commit_quorum_certificate_against_current_proposal env qc
    modify (λ t. record t { slot = t.current_proposal.slot; view = 0; state_tag = follower_tag })
    emit_commit_event env qc
    advance_round env (commit_qc qc)

  unfoldable pub on_commit_while_joining : CommitQc → ConsensusProposalHash → M Done
  unfolding synchronize get
  on_commit_while_joining qc hash = reading (λ s. elim (get s.follower.buffered_prepares hash) [
    | none ↦ pure tt
    | some potential ↦
        if leb potential.1.slot s.slot
        then pure tt
        else if ltb (add_u64 s.staking_updated_to 1) potential.1.slot
        then pure tt
        else synchronize potential.1 qc
  ])

  unfoldable pub commit_as : StateTag → CommitQc → ConsensusProposalHash → M Done
  unfolding commit_current on_commit_while_joining
  commit_as follower_tag qc hash =
      reading (λ s.
        if not (env.hashed s.current_proposal == hash) then pure tt else commit_current env qc)
  commit_as joining qc hash = on_commit_while_joining qc hash
  commit_as leader_tag qc hash = pure tt

  unfoldable pub on_commit : CommitQc → ConsensusProposalHash → M Done
  unfolding commit_as current_slot_prepare_is_present
  on_commit qc hash = reading (λ s.
      if not (is_joining s.state_tag) && not (current_slot_prepare_is_present s)
      then pure tt
      else commit_as s.state_tag qc hash)

  unfoldable pub on_sync_request : ValidatorPublicKey → ConsensusProposalHash → M Done
  unfolding send get
  on_sync_request sender hash = reading (λ s. elim (get s.follower.buffered_prepares hash) [
    | none ↦ pure tt
    | some message ↦ send (send_to sender (sync_reply message))
  ])
