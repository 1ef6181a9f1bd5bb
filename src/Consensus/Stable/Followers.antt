-- ===== src/Consensus/Stable/Followers.antt =====
-- Stable properties through the methods of src/consensus/role_follower.rs.
use hyle.Prelude.{
  refl, ℕ, zero, suc, ◌<◌, not, none, some, List, [], ◌∷◌, if◌then◌else◌, retain, leb, ltb, ◌||◌,
  arith,
}
use hyle.Prelude.Exec.{
  Done, Keeps, lift_at, if_at, Keeps-modify, Keeps-pure, Keeps-bail, Keeps-lift, Keeps-ok_or,
  Keeps-reading, Keeps-if, Keeps-require, Keeps-option, Keeps-bind, ◌>>=◌, ◌>>◌, reading, modify,
  pure,
}
use hyle.Prelude.Key.{◌==◌, string_key}
use hyle.Prelude.Word.{add_u64}
use hyle.Model.{ValidatorPublicKey, bytes_key}
use hyle.Contracts.Staking.{get_stake}
use hyle.Proposals.{
  Cut, ConsensusProposal, ConsensusProposalHash, ConsensusStakingAction, bonds, pays_fees_for_dadi,
  SignedByValidator, ValidatorCandidacy,
}
use hyle.Consensus.Messages.{PrepareQc, CommitQc, commit_qc, Prepare}
use hyle.Consensus.{Env, Consensus, M, StateTag, joining, leader_tag, follower_tag}
use hyle.Consensus.Round.{
  get, next_prepare, advance_round, verify_quorum_certificate,
  verify_commit_quorum_certificate_against_current_proposal, emit_commit_event, send,
}
use hyle.Consensus.Checks.{verify_new_validators_to_bond, verify_staking_actions}
use hyle.Consensus.Follower.{
  buffer_prepare_message_and_fetch_missing_parent, check_prepare, send_vote, accept_proposal,
  on_prepare, acknowledge, confirm_as, on_confirm, synchronize, on_commit_while_joining, commit_as,
  on_commit, on_sync_request,
}
use hyle.Consensus.Stable.{Stable, committing}
use hyle.Consensus.Stable.Rounds.{
  send-Keeps, round_leader-Keeps, verify_quorum_certificate-Keeps, sign_content-Keeps,
  advance_round-Keeps,
}
use hyle.Consensus.Stable.Tickets.{
  certifies, commit_current-Keeps, push_prepare-Keeps, enter_prepare-Keeps, process_ticket-Keeps,
}

module _ {env : Env} {P : Consensus → Type 0} (st : Stable env P) where
  buffer_prepare-Keeps :
      (fuel : ℕ) (message : Prepare)
      → Keeps P (buffer_prepare_message_and_fetch_missing_parent env fuel message)
  unfolding buffer_prepare_message_and_fetch_missing_parent
  buffer_prepare-Keeps fuel message =
      Keeps-bind (Keeps-reading (λ s. Keeps-if _ (Keeps-pure tt) (push_prepare-Keeps st message)))
        λ _. Keeps-reading λ s. Keeps-bind (Keeps-ok_or _ _) λ missing.
          Keeps-option missing (Keeps-pure tt) λ hash.
            Keeps-option
              (env.choose (retain (λ v. not (v == env.validator_pubkey)) s.staking.bonded))
              (send-Keeps st _ refl) (λ peer. send-Keeps st _ refl)

  verify_new_validators_to_bond-Keeps :
      (candidate : SignedByValidator ValidatorCandidacy)
      → Keeps P (verify_new_validators_to_bond env candidate)
  unfolding verify_new_validators_to_bond
  verify_new_validators_to_bond-Keeps candidate = Keeps-reading λ s.
      Keeps-option (get_stake s.staking candidate.validator) (Keeps-bail _) λ staked.
        Keeps-if _ (Keeps-bail _) (
          Keeps-bind (Keeps-ok_or _ _) (λ valid. Keeps-bind (Keeps-require _ _) (λ _.
            Keeps-bind (Keeps-modify _ (λ t p. st.candidates t _ p)) (λ _. send-Keeps st _ refl))))

  verify_staking_actions-Keeps :
      (cut : Cut) (actions : List ConsensusStakingAction)
      → Keeps P (verify_staking_actions env cut actions)
  unfolding verify_staking_actions
  verify_staking_actions-Keeps cut [] = Keeps-pure tt
  verify_staking_actions-Keeps cut (bonds candidate ∷ more) =
      Keeps-bind (verify_new_validators_to_bond-Keeps candidate)
        (λ _. verify_staking_actions-Keeps cut more)
  verify_staking_actions-Keeps cut (pays_fees_for_dadi lane_id size ∷ more) =
      Keeps-bind (Keeps-lift _) (λ _. verify_staking_actions-Keeps cut more)

  check_prepare-Keeps : (message : Prepare) → Keeps P (check_prepare env message)
  unfolding check_prepare
  check_prepare-Keeps message = Keeps-bind (Keeps-reading (λ s. Keeps-require _ _)) λ _.
      Keeps-bind (Keeps-reading (λ s. Keeps-require _ _)) λ _.
        Keeps-bind (round_leader-Keeps st) λ leader. Keeps-bind (Keeps-require _ _) λ _.
          Keeps-bind (Keeps-reading (λ s. Keeps-lift _)) λ _.
            Keeps-bind (verify_staking_actions-Keeps _ _)
              λ _. Keeps-bind (Keeps-reading (λ s. Keeps-lift _)) (λ _. Keeps-pure _)

  send_vote-Keeps :
      (leader : ValidatorPublicKey) (hash : ConsensusProposalHash)
      → Keeps P (send_vote env leader hash)
  unfolding send_vote
  send_vote-Keeps leader hash = Keeps-reading λ s.
      Keeps-if _ (Keeps-bind (sign_content-Keeps st _ _) (λ _. send-Keeps st _ refl))
        (Keeps-pure tt)

  accept_proposal-Keeps : (message : Prepare) → Keeps P (accept_proposal env message)
  unfolding accept_proposal
  accept_proposal-Keeps message =
      Keeps-bind (Keeps-modify _ (λ s p. st.proposals s _ p)) (λ _. push_prepare-Keeps st message)

  pub on_prepare-Keeps : (fuel : ℕ) (message : Prepare) → Keeps P (on_prepare env fuel message)
  unfolding on_prepare
  on_prepare-Keeps zero message = Keeps-bail _
  on_prepare-Keeps (suc fuel) message = Keeps-bind (enter_prepare-Keeps st message) λ goes_on.
      Keeps-reading λ s. Keeps-if (not goes_on || ltb message.1.slot s.slot) (Keeps-pure tt) (
        Keeps-bind (process_ticket-Keeps st message.1 message.2 message.3) (λ processed.
          Keeps-if (not processed) (buffer_prepare-Keeps fuel message) (
            Keeps-bind (check_prepare-Keeps message) (λ leader.
              Keeps-bind (accept_proposal-Keeps message) (λ _. Keeps-reading (λ t.
                Keeps-option (next_prepare t.follower.buffered_prepares (env.hashed message.1))
                  (send_vote-Keeps leader (env.hashed message.1))
                  (λ next. on_prepare-Keeps fuel next)))))))

  acknowledge-Keeps : (hash : ConsensusProposalHash) → Keeps P (acknowledge env hash)
  unfolding acknowledge
  acknowledge-Keeps hash = Keeps-reading λ s.
      Keeps-if _
        (Keeps-bind (round_leader-Keeps st)
          (λ leader. Keeps-bind (sign_content-Keeps st _ _) (λ _. send-Keeps st _ refl)))
        (Keeps-pure tt)

  confirm_as-Keeps :
      (tag : StateTag) (qc : PrepareQc) (hash : ConsensusProposalHash)
      → Keeps P (confirm_as env tag qc hash)
  unfolding confirm_as
  confirm_as-Keeps follower_tag qc hash = Keeps-reading λ s. Keeps-if _ (Keeps-pure tt) (
      Keeps-bind (verify_quorum_certificate-Keeps st _ qc) (λ _.
        Keeps-bind (Keeps-modify _ (λ t p. st.sees t t.slot qc p)) (λ _. acknowledge-Keeps hash)))
  confirm_as-Keeps joining qc hash = Keeps-pure tt
  confirm_as-Keeps leader_tag qc hash = Keeps-pure tt

  pub on_confirm-Keeps :
      (qc : PrepareQc) (hash : ConsensusProposalHash) → Keeps P (on_confirm env qc hash)
  unfolding on_confirm
  on_confirm-Keeps qc hash = Keeps-reading (λ s. confirm_as-Keeps s.state_tag qc hash)

  abbrev synchronized : Consensus → ConsensusProposal → Consensus
  synchronized s cp = record s {
    current_proposal = cp;
    slot = cp.slot;
    view = 0;
    state_tag = follower_tag;
  }

  synchronize-Keeps :
      (cp : ConsensusProposal) (qc : CommitQc) (s : Consensus)
      → s.slot < cp.slot
      → P s
      → P (synchronize env cp qc s).1
  unfolding synchronize verify_commit_quorum_certificate_against_current_proposal emit_commit_event
      verify_quorum_certificate send ◌>>=◌
  synchronize-Keeps cp qc s h p =
      lift_at P (certifies st (record s { current_proposal = cp }) qc)
        (λ (_ : Done). do
          modify
              (λ t. record t { slot = t.current_proposal.slot; view = 0; state_tag = follower_tag })
          emit_commit_event env qc
          advance_round env (commit_qc qc))
        (record s { current_proposal = cp })
        (λ done e. (advance_round-Keeps st (commit_qc qc)).at (committing (synchronized s cp) qc) (
          st.commits (synchronized s cp) qc e
            (st.joins (record s { current_proposal = cp }) h (st.proposals s cp p))))
        (st.proposals s cp p)

  on_commit_while_joining-Keeps :
      (qc : CommitQc) (hash : ConsensusProposalHash) → Keeps P (on_commit_while_joining env qc hash)
  unfolding on_commit_while_joining reading pure
  on_commit_while_joining-Keeps qc hash = record {
    at = λ s p.
        elim (get s.follower.buffered_prepares hash)
          as (λ o.
            P
              ((elim o as (λ _. M Done) [
                | none ↦ pure tt
                | some potential ↦
                    if leb potential.1.slot s.slot
                    then pure tt
                    else if ltb (add_u64 s.staking_updated_to 1) potential.1.slot
                    then pure tt
                    else synchronize env potential.1 qc
              ])
                s).1) [
                  | none ↦ p
                  | some potential ↦
                      if_at P (leb potential.1.slot s.slot) (pure tt) _ s (λ e. p)
                        (λ e.
                          if_at P (ltb (add_u64 s.staking_updated_to 1) potential.1.slot) (pure tt)
                            (synchronize env potential.1 qc) s (λ _. p)
                            (λ _. synchronize-Keeps potential.1 qc s (ground (arith, e)) p))
                ];
  }

  commit_as-Keeps :
      (tag : StateTag) (qc : CommitQc) (hash : ConsensusProposalHash)
      → Keeps P (commit_as env tag qc hash)
  unfolding commit_as
  commit_as-Keeps follower_tag qc hash =
      Keeps-reading (λ s. Keeps-if _ (Keeps-pure tt) (commit_current-Keeps st qc))
  commit_as-Keeps joining qc hash = on_commit_while_joining-Keeps qc hash
  commit_as-Keeps leader_tag qc hash = Keeps-pure tt

  pub on_commit-Keeps :
      (qc : CommitQc) (hash : ConsensusProposalHash) → Keeps P (on_commit env qc hash)
  unfolding on_commit
  on_commit-Keeps qc hash =
      Keeps-reading (λ s. Keeps-if _ (Keeps-pure tt) (commit_as-Keeps s.state_tag qc hash))

  pub on_sync_request-Keeps :
      (sender : ValidatorPublicKey) (hash : ConsensusProposalHash)
      → Keeps P (on_sync_request env sender hash)
  unfolding on_sync_request
  on_sync_request-Keeps sender hash = Keeps-reading λ s.
      Keeps-option (get s.follower.buffered_prepares hash) (Keeps-pure tt)
        (λ message. send-Keeps st _ refl)
