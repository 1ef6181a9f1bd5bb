-- ===== src/Consensus/Round.antt =====
-- From one round to the next: the methods of src/consensus.rs that the roles share, and
-- `has_no_buffered_children` of role_follower.rs.
pub mod Certificates
unfoldable pub use Certificates.*
use hyle.Prelude.{
  not, ℕ, ◌+◌, ◌-◌, ◌%◌, Bool, true, false, ◌&&◌, Option, none, some, List, [], ◌∷◌, ◌++◌,
  if◌then◌else◌, all, length, map, get_elem?, ltb, nat_eq, is_some, unwrap_or, Result, ok, err,
}
use hyle.Prelude.Exec.{Done, pure, bail, lift, gets, reading, ok_or, modify, ◌>>=◌, ◌>>◌}
use hyle.Prelude.Key.{◌==◌, string_key}
use hyle.Prelude.Word.{u64_mod, add_u64, add_u128, mul_u128}
use hyle.Prelude.Map.{lookup}
use hyle.Model.{Bytes, ValidatorPublicKey, bytes_key}
use hyle.Contracts.Staking.{
  Staking, StakingError, bond, is_bonded, get_stake, min_stake, compute_voting_power, compute_f,
  pay_for_dadi, distribute_fees,
}
use hyle.Proposals.{
  ConsensusProposalHash, AggregateSignature, ConsensusStakingAction, bonds, pays_fees_for_dadi,
  ValidatorCandidacy, SignedByValidator,
}
use hyle.Consensus.Messages.{
  SignedContent, confirm_ack_content, candidacy_content, CommitQc, Ticket, genesis_ticket,
  forced_commit_qc, commit_qc, timeout_qc, Prepare, validator_candidacy,
}
use hyle.Consensus.{
  Env, Consensus, ConsensusError, of_staking, not_synchronized, genesis_not_accepted,
  no_next_leader, panicked, invalid_certificate, certificate_error, foreign_signers,
  not_enough_power, crypto_error, M, Output, broadcast, commit_consensus_proposal,
  start_new_slot_command, default_leader, StateTag, joining, leader_tag, follower_tag, scheduled,
  BufferedPrepares,
}

module _ (env : Env) where
  unfoldable pub schedule_next : M Done
  schedule_next = modify (λ s. record s {
    timeouts = record s.timeouts { timeout_state = scheduled (add_u128 env.now env.timeout_after) };
  })

  unfoldable pub run_staking : (Staking → Result StakingError Done × Staking) → M Done
  run_staking f = reading (λ s.
      let (r, staking') = f s.staking in
      do
        modify (λ t. record t { staking = staking' })
        elim r [ ok done ↦ pure tt | err e ↦ bail (of_staking e) ])

  unfoldable pub apply_actions : List ConsensusStakingAction → M Done
  unfolding run_staking
  apply_actions [] = pure tt
  apply_actions (bonds candidate ∷ more) = do
    run_staking (λ staking. bond staking candidate.validator)
    apply_actions more
  apply_actions (pays_fees_for_dadi lane_id cumul_size ∷ more) = do
    run_staking
        (λ staking. (ok tt, record staking { fees = pay_for_dadi staking.fees lane_id cumul_size }))
    apply_actions more

  -- The slot is committed. `take` leaves the current proposal without its staking actions.
  unfoldable pub finish_slot : Option CommitQc → M Done
  unfolding apply_actions run_staking
  finish_slot qc = do
    modify (λ s. record s {
      slot = add_u64 s.slot 1;
      view = 0;
      parent_hash = env.hashed s.current_proposal;
      parent_timestamp = s.current_proposal.timestamp;
      parent_cut = s.current_proposal.cut;
      follower = record s.follower { buffered_quorum_certificate = qc };
    })
    actions ← gets (λ s. s.current_proposal.staking_actions)
    modify (λ s. record s { current_proposal = record s.current_proposal { staking_actions = [] } })
    apply_actions actions
    run_staking (λ staking.
        let (r, fees') = distribute_fees staking.fees staking.bonded in
        (r, record staking { fees = fees' }))

  unfoldable pub apply_kind : Ticket → M Done
  unfolding finish_slot
  apply_kind (commit_qc qc) = finish_slot (some qc)
  apply_kind forced_commit_qc = finish_slot none
  apply_kind (timeout_qc qc kind) = modify (λ s. record s {
    view = add_u64 s.view 1;
    follower = record s.follower { buffered_quorum_certificate = none };
  })
  apply_kind genesis_ticket = bail genesis_not_accepted

  unfoldable pub take_role : M Done
  unfolding round_leader schedule_next
  take_role = do
    round_leader ← round_leader
    if round_leader == env.validator_pubkey
        then set_tag leader_tag
        else do set_tag follower_tag; schedule_next

  unfoldable pub apply_ticket : Ticket → M Done
  unfolding apply_kind take_role
  apply_ticket ticket = reading (λ s. if is_joining s.state_tag then bail not_synchronized else do
    modify
        (λ t. record t { leader = default_leader; timeouts = record t.timeouts { requests = [] } })
    apply_kind ticket
    take_role)

  unfoldable pub has_no_buffered_children : Consensus → Bool
  unfolding next_prepare
  has_no_buffered_children s =
      not (is_some (next_prepare s.follower.buffered_prepares (env.hashed s.current_proposal)))

  unfoldable pub sign_content : {T : Type 0} → T → SignedContent → M (SignedByValidator T)
  sign_content msg content = do
    signature ← ok_or crypto_error (env.sign (env.encode content))
    pure (record { msg = msg; signature = signature; validator = env.validator_pubkey })

  -- `BlstCrypto::sign_aggregate`: the own signature comes last.
  unfoldable pub sign_aggregate :
      SignedContent → List (Bytes × ValidatorPublicKey) → M AggregateSignature
  sign_aggregate content signatures = do
    own ← ok_or crypto_error (env.sign (env.encode content))
    ok_or crypto_error
        (env.aggregate (env.encode content) (signatures ++ (own, env.validator_pubkey) ∷ []))

  unfoldable pub send_candidacy : M Done
  unfolding sign_content send
  send_candidacy =
      let candidacy : ValidatorCandidacy = record { peer_address = env.public_address } in
      do
        signed ← sign_content candidacy (candidacy_content candidacy)
        send (broadcast (validator_candidacy signed))

  abbrev pub is_forced : Ticket → Bool
  is_forced forced_commit_qc = true
  is_forced _ = false

  unfoldable pub prepare_next_slot : Ticket → M Done
  unfolding send
  prepare_next_slot ticket = do
    modify (λ t. record t { leader = record t.leader { pending_ticket = some ticket } })
    send (start_new_slot_command none)

  unfoldable pub advance_round : Ticket → M Done
  unfolding apply_ticket has_no_buffered_children send_candidacy prepare_next_slot
      is_part_of_consensus get_stake
  advance_round ticket = do
    apply_ticket ticket
    reading (λ s.
        if is_leader s.state_tag && (has_no_buffered_children s && not (is_forced ticket))
        then prepare_next_slot ticket
        else if is_part_of_consensus s env.validator_pubkey
        then pure tt
        else if ltb min_stake (unwrap_or (get_stake s.staking env.validator_pubkey) 0)
        then send_candidacy
        else pure tt)

  unfoldable pub verify_commit_quorum_certificate_against_current_proposal : CommitQc → M Done
  unfolding verify_quorum_certificate
  verify_commit_quorum_certificate_against_current_proposal qc =
      reading (λ s.
        verify_quorum_certificate env (confirm_ack_content (env.hashed s.current_proposal)) qc)

  unfoldable pub emit_commit_event : CommitQc → M Done
  unfolding send
  emit_commit_event qc =
      reading (λ s. send (commit_consensus_proposal s.staking s.current_proposal qc))
