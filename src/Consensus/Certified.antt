-- ===== src/Consensus/Certified.antt =====
-- What a node commits, and with which certificate.
use hyle.Prelude.{◌≡◌, refl, false, List, [], ◌∷◌, ◌++◌, ◌⊎◌, inl, inr, ok, arith}
use hyle.Model.{ValidatorPublicKey}
use hyle.Proposals.{ConsensusProposalHash}
use hyle.Consensus.Messages.{confirm_ack_content}
use hyle.Consensus.{
  Env, Consensus, Output, broadcast, send_to, commit_consensus_proposal, start_new_slot_command,
  delayed_start_new_slot, connect_to,
}
use hyle.Consensus.Round.{check_quorum_certificate}
use hyle.Consensus.Follower.{
  current_proposal_changes_voting_power, empty_certificate, changes_power,
}
use hyle.NodeState.Block.{Block}
use hyle.Consensus.Handler.{handle_net_message, catch_up, handle_node_state_event}
use hyle.Consensus.Runs.{Reaches, here, by_message, by_command, by_block}
use hyle.Consensus.Stable.Rounds.{run_staking-Keeps}
use hyle.Prelude.Exec.{Keeps, Keeps-bind, Keeps-modify}
use hyle.Consensus.Stable.{Stable, is_commit}
use hyle.Consensus.Stable.Handlers.{handle_net_message-Keeps, handle_command-Keeps}
use hyle.Prelude.{any}

module _ (env : Env) where
  -- The proposal's acknowledgements are certified by a quorum of the stakes at that time; or there is
  -- no certificate, and the proposal bonds no one.
  abbrev pub IsCertified : Output → Type 0
  IsCertified (commit_consensus_proposal staking proposal qc) =
      (check_quorum_certificate env staking (confirm_ack_content (env.hashed proposal)) qc ≡ ok tt)
      ⊎ ((qc ≡ empty_certificate) × (any changes_power proposal.staking_actions ≡ false))
  IsCertified _ = Unit {0}

  abbrev pub AllCertified : List Output → Type 0
  AllCertified [] = Unit {0}
  AllCertified (o ∷ os) = IsCertified o × AllCertified os

  AllCertified-append :
      (os : List Output) (o : Output)
      → AllCertified os
      → IsCertified o
      → AllCertified (os ++ o ∷ [])
  AllCertified-append [] o h k = (k, tt)
  AllCertified-append (p ∷ os) o h k = (h.0, AllCertified-append os o h.1 k)

  message-IsCertified : (o : Output) → is_commit o ≡ false → IsCertified o
  message-IsCertified (commit_consensus_proposal staking proposal qc) h = cc
  message-IsCertified (broadcast m) h = tt
  message-IsCertified (send_to v m) h = tt
  message-IsCertified (start_new_slot_command t) h = tt
  message-IsCertified (delayed_start_new_slot n t) h = tt
  message-IsCertified (connect_to p) h = tt

  abbrev pub CommitsCertified : Consensus → Type 0
  CommitsCertified s = AllCertified s.sent

  CommitsCertified-Stable : Stable env CommitsCertified
  unfolding current_proposal_changes_voting_power
  CommitsCertified-Stable = record {
    sends = λ s o h p. AllCertified-append s.sent o p (message-IsCertified o h);
    tags = λ s t p. p;
    leads = λ s l p. p;
    follows = λ s f p. p;
    requests = λ s rs p. p;
    schedules = λ s t p. p;
    sees = λ s slot qc p. p;
    candidates = λ s vs p. p;
    proposals = λ s cp p. p;
    stakes = λ s st p. p;
    views = λ s p. p;
    slots = λ s p. p;
    joins = λ s h p. p;
    commits = λ s qc e p.
        AllCertified-append s.sent (commit_consensus_proposal s.staking s.current_proposal qc) p
          (inl e);
    forces = λ s e p.
        AllCertified-append s.sent
          (commit_consensus_proposal s.staking s.current_proposal empty_certificate) p
          (inr (refl, e));
  }

  sent-catch_up :
      (block : Block) (hash : ConsensusProposalHash) (s : Consensus)
      → (catch_up env block hash s).sent ≡ s.sent
  unfolding catch_up
  sent-catch_up block hash s = ground arith

  handle_node_state_event-CommitsCertified :
      (block : Block) (hash : ConsensusProposalHash) (bonded : List ValidatorPublicKey)
      → Keeps CommitsCertified (handle_node_state_event env block hash bonded)
  unfolding handle_node_state_event
  handle_node_state_event-CommitsCertified block hash bonded =
      Keeps-bind (run_staking-Keeps CommitsCertified-Stable _)
        (λ _. Keeps-modify _ (λ s p. rw (sent-catch_up block hash s) p))

module _ (env : Env) (start : Consensus) where
  -- Whatever messages, commands and blocks a node handles, from a start at which every commit that it
  -- sent was certified: all that it commits has a quorum of acknowledgements for that proposal among the
  -- validators bonded at that time, or has no certificate and bonds no one.
  pub Reaches-CommitsCertified :
      CommitsCertified env start → {s : Consensus} → Reaches env start s → CommitsCertified env s
  unfolding check_quorum_certificate handle_net_message
  Reaches-CommitsCertified h here = h
  Reaches-CommitsCertified h (by_message now choose fuel sender message r) =
      (handle_net_message-Keeps
          (CommitsCertified-Stable (record env { now = now; choose = choose })) fuel sender
          message).at
        _ (Reaches-CommitsCertified h r)
  Reaches-CommitsCertified h (by_command now cut command r) =
      (handle_command-Keeps (CommitsCertified-Stable (record env { now = now })) cut command).at _
        (Reaches-CommitsCertified h r)
  Reaches-CommitsCertified h (by_block block hash bonded r) =
      (handle_node_state_event-CommitsCertified env block hash bonded).at _
        (Reaches-CommitsCertified h r)
