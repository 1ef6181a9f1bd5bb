-- ===== src/Consensus/Follower/Tickets.antt =====
-- The tickets of a prepare, which show how the slot or view before it ended: what `on_prepare` of
-- src/consensus/role_follower.rs does with them.
use hyle.Prelude.{
  not, ◌+◌, ◌-◌, ◌%◌, Bool, true, false, ◌&&◌, ◌||◌, Option, none, some, [], if◌then◌else◌, any,
  ltb, nat_eq,
}
use hyle.Prelude.Exec.{Done, pure, bail, reading, modify, require, ◌>>◌}
use hyle.Prelude.Key.{◌==◌, string_key}
use hyle.Prelude.Word.{u64_mod, add_u64}
use hyle.Prelude.Map.{insert}
use hyle.Model.{bytes_key}
use hyle.Proposals.{
  View, AggregateSignature, ConsensusStakingAction, bonds, pays_fees_for_dadi, ConsensusProposal,
  proposal_eq, aggregate_eq,
}
use hyle.Consensus.Messages.{
  confirm_ack_content, CommitQc, TimeoutQc, TcKind, nil_certificate, prepare_certificate, Ticket,
  genesis_ticket, forced_commit_qc, commit_qc, timeout_qc, Prepare,
}
use hyle.Consensus.{
  Env, Consensus, proposal_mismatch, changes_voting_power, not_current_slot,
  genesis_after_first_slot, invalid_ticket, M, BufferedPrepares, follower_tag,
}
use hyle.Consensus.Round.{
  set_tag, is_joining, current_slot_prepare_is_present, verify_quorum_certificate, advance_round,
  verify_commit_quorum_certificate_against_current_proposal, emit_commit_event,
}
use hyle.Consensus.Timeout.{verify_tc}

abbrev pub changes_power : ConsensusStakingAction → Bool
changes_power (bonds candidate) = true
changes_power (pays_fees_for_dadi lane_id cumul_size) = false

unfoldable pub current_proposal_changes_voting_power : Consensus → Bool
current_proposal_changes_voting_power s = any changes_power s.current_proposal.staking_actions

-- `AggregateSignature::default()`
abbrev pub empty_certificate : AggregateSignature
empty_certificate = record { signature = []; validators = [] }

abbrev pub is_known_certificate : Option CommitQc → CommitQc → Bool
is_known_certificate none qc = false
is_known_certificate (some known) qc = aggregate_eq known qc

abbrev matches : TcKind → ConsensusProposal → Bool
matches nil_certificate cp = true
matches (prepare_certificate qc p) cp = proposal_eq p cp

module _ (env : Env) where
  -- `BufferedPrepares::push`
  unfoldable pub push : BufferedPrepares → Prepare → BufferedPrepares
  push buffer message =
      let hash = env.hashed message.1 in
      record {
        prepares = insert hash message buffer.prepares;
        children = insert message.1.parent_hash hash buffer.children;
      }

  unfoldable pub push_prepare : Prepare → M Done
  unfolding push
  push_prepare message = modify (λ s. record s {
    follower = record s.follower { buffered_prepares = push s.follower.buffered_prepares message };
  })

  -- A prepare that is expected ends the joining mode; another one is buffered, and the handler ends.
  unfoldable pub leaves_joining : Consensus → ConsensusProposal → View → Bool
  unfolding current_slot_prepare_is_present
  leaves_joining s cp view =
      let present = current_slot_prepare_is_present s in
      (nat_eq cp.slot s.slot && not present)
      || (present
          && (nat_eq cp.slot (add_u64 s.slot 1) || (nat_eq cp.slot s.slot && ltb s.view view)))

  unfoldable pub enter_prepare : Prepare → M Bool
  unfolding leaves_joining push_prepare
  enter_prepare message = reading (λ s.
      if not (is_joining s.state_tag)
      then pure true
      else if leaves_joining s message.1 message.3
      then (do set_tag follower_tag; pure true)
      else (do push_prepare message; pure false))

  -- Our current slot, or the next one where its predecessor is known.
  abbrev pub is_next_slot : Consensus → ConsensusProposal → Bool
  is_next_slot s cp = nat_eq cp.slot (add_u64 s.slot 1) && current_slot_prepare_is_present s

  -- "Try to commit our current prepare & fast-forward": there is no certificate to commit it with.
  unfoldable pub force_commit : M Done
  unfolding emit_commit_event advance_round current_proposal_changes_voting_power
  force_commit = reading (λ s. do
    require (not (current_proposal_changes_voting_power s)) changes_voting_power
    emit_commit_event env empty_certificate
    advance_round env forced_commit_qc)

  unfoldable pub process_timeout_qc : TimeoutQc → TcKind → ConsensusProposal → View → M Done
  unfolding verify_tc advance_round
  process_timeout_qc qc kind cp view = do
    reading (λ s. require (nat_eq cp.slot s.slot) not_current_slot)
    reading (λ s. verify_tc env qc kind s.slot ((view + (u64_mod - 1)) % u64_mod))
    reading (λ s.
        if nat_eq view (add_u64 s.view 1) then advance_round env (timeout_qc qc kind) else pure tt)

  unfoldable pub verify_and_process_tc_ticket :
      TimeoutQc → TcKind → ConsensusProposal → View → M Bool
  unfolding force_commit process_timeout_qc current_slot_prepare_is_present proposal_eq
  verify_and_process_tc_ticket qc kind cp view = reading (λ s.
      if not (nat_eq cp.slot s.slot || is_next_slot s cp) then pure false else (do
        require (matches kind cp) proposal_mismatch
        (if is_next_slot s cp && cp.parent_hash == env.hashed s.current_proposal
            then force_commit
            else pure tt)
        process_timeout_qc qc kind cp view
        pure true))

  -- The certificate is verified for the current proposal, which is committed.
  unfoldable pub commit_current : CommitQc → M Done
  unfolding verify_commit_quorum_certificate_against_current_proposal emit_commit_event
      advance_round
  commit_current qc = do
    verify_commit_quorum_certificate_against_current_proposal env qc
    emit_commit_event env qc
    advance_round env (commit_qc qc)

  unfoldable pub verify_and_process_commit_ticket : ConsensusProposal → CommitQc → M Bool
  unfolding current_slot_prepare_is_present verify_quorum_certificate commit_current aggregate_eq
  verify_and_process_commit_ticket cp qc = reading (λ s.
      if not (nat_eq cp.slot s.slot || is_next_slot s cp)
      then pure false
      else if is_known_certificate s.follower.buffered_quorum_certificate qc
      then pure true
      else if not (current_slot_prepare_is_present s)
      then (do verify_quorum_certificate env (confirm_ack_content s.parent_hash) qc; pure true)
      else (do commit_current qc; pure true))

  unfoldable pub process_ticket : ConsensusProposal → Ticket → View → M Bool
  unfolding verify_and_process_commit_ticket verify_and_process_tc_ticket
  process_ticket cp genesis_ticket view =
      reading (λ s. do require (nat_eq s.slot 1) genesis_after_first_slot; pure true)
  process_ticket cp (commit_qc qc) view = verify_and_process_commit_ticket cp qc
  process_ticket cp (timeout_qc qc kind) view = verify_and_process_tc_ticket qc kind cp view
  process_ticket cp forced_commit_qc view = bail invalid_ticket
