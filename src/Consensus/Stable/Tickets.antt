-- ===== src/Consensus/Stable/Tickets.antt =====
-- Stable properties through the tickets of src/consensus/role_follower.rs.
use hyle.Prelude.{not, nat_eq, ◌||◌, Result, arith}
use hyle.Prelude.Exec.{
  Done, Keeps, lift_at, require_at, Keeps-modify, Keeps-pure, Keeps-bail, Keeps-reading, Keeps-if,
  Keeps-require, Keeps-bind, ◌>>=◌, ◌>>◌, reading,
}
use hyle.Prelude.Key.{string_key}
use hyle.Model.{bytes_key}
use hyle.Proposals.{View, ConsensusProposal}
use hyle.Consensus.Messages.{
  confirm_ack_content, CommitQc, TimeoutQc, TcKind, Ticket, genesis_ticket, forced_commit_qc,
  commit_qc, timeout_qc, Prepare,
}
use hyle.Consensus.{Env, Consensus, ConsensusError, changes_voting_power, M}
use hyle.Consensus.Round.{
  current_slot_prepare_is_present, advance_round, check_quorum_certificate,
  verify_quorum_certificate, verify_commit_quorum_certificate_against_current_proposal,
  emit_commit_event, send,
}
use hyle.Consensus.Follower.{
  is_known_certificate, is_next_slot, empty_certificate, push_prepare, enter_prepare, force_commit,
  current_proposal_changes_voting_power, process_timeout_qc, verify_and_process_tc_ticket,
  commit_current, verify_and_process_commit_ticket, process_ticket,
}
use hyle.Consensus.Stable.{Stable, committing}
use hyle.Consensus.Stable.Rounds.{
  set_tag-Keeps, verify_quorum_certificate-Keeps, advance_round-Keeps,
}
use hyle.Consensus.Stable.Timeouts.{verify_tc-Keeps}

module _ {env : Env} {P : Consensus → Type 0} (st : Stable env P) where
  abbrev pub certifies : Consensus → CommitQc → Result ConsensusError Done
  certifies s qc =
      check_quorum_certificate env s.staking (confirm_ack_content (env.hashed s.current_proposal))
        qc

  -- The certificate is verified, and then the commit is sent.
  certified-Keeps :
      (qc : CommitQc) {k : M Done}
      → Keeps P k
      → Keeps P (do
        verify_commit_quorum_certificate_against_current_proposal env qc
        emit_commit_event env qc
        k)
  unfolding verify_commit_quorum_certificate_against_current_proposal emit_commit_event
      verify_quorum_certificate send ◌>>=◌
  certified-Keeps qc {k} keep = record {
    at = λ s p.
        lift_at P (certifies s qc) (λ (_ : Done). do emit_commit_event env qc; k) s
          (λ done e. keep.at (committing s qc) (st.commits s qc e p)) p;
  }

  pub commit_current-Keeps : (qc : CommitQc) → Keeps P (commit_current env qc)
  unfolding commit_current
  commit_current-Keeps qc = certified-Keeps qc (advance_round-Keeps st (commit_qc qc))

  pub push_prepare-Keeps : (message : Prepare) → Keeps P (push_prepare env message)
  unfolding push_prepare
  push_prepare-Keeps message = Keeps-modify _ (λ s p. st.follows s _ p)

  pub enter_prepare-Keeps : (message : Prepare) → Keeps P (enter_prepare env message)
  unfolding enter_prepare
  enter_prepare-Keeps message = Keeps-reading λ s. Keeps-if _ (Keeps-pure _) (
      Keeps-if _ (Keeps-bind (set_tag-Keeps st _) (λ _. Keeps-pure _))
        (Keeps-bind (push_prepare-Keeps message) (λ _. Keeps-pure _)))

  force_commit-Keeps : Keeps P (force_commit env)
  unfolding force_commit emit_commit_event send ◌>>=◌ reading
  force_commit-Keeps = record {
    at = λ s p.
        require_at P (not (current_proposal_changes_voting_power s)) changes_voting_power
          (λ (_ : Done). do
            emit_commit_event env empty_certificate
            advance_round env forced_commit_qc)
          s
          (λ e.
            (advance_round-Keeps st forced_commit_qc).at (committing s empty_certificate)
              (st.forces s (ground (arith, e)) p))
          p;
  }

  process_timeout_qc-Keeps :
      (qc : TimeoutQc) (kind : TcKind) (cp : ConsensusProposal) (view : View)
      → Keeps P (process_timeout_qc env qc kind cp view)
  unfolding process_timeout_qc
  process_timeout_qc-Keeps qc kind cp view =
      Keeps-bind (Keeps-reading (λ s. Keeps-require _ _)) λ _.
        Keeps-bind (Keeps-reading (λ s. verify_tc-Keeps st qc kind _ _)) λ _.
          Keeps-reading
            λ s. Keeps-if _ (advance_round-Keeps st (timeout_qc qc kind)) (Keeps-pure tt)

  verify_and_process_tc_ticket-Keeps :
      (qc : TimeoutQc) (kind : TcKind) (cp : ConsensusProposal) (view : View)
      → Keeps P (verify_and_process_tc_ticket env qc kind cp view)
  unfolding verify_and_process_tc_ticket
  verify_and_process_tc_ticket-Keeps qc kind cp view = Keeps-reading λ s.
      Keeps-if _ (Keeps-pure _) (
        Keeps-bind (Keeps-require _ _) (λ _.
          Keeps-bind (Keeps-if _ force_commit-Keeps (Keeps-pure tt))
            (λ _. Keeps-bind (process_timeout_qc-Keeps qc kind cp view) (λ _. Keeps-pure _))))

  verify_and_process_commit_ticket-Keeps :
      (cp : ConsensusProposal) (qc : CommitQc)
      → Keeps P (verify_and_process_commit_ticket env cp qc)
  unfolding verify_and_process_commit_ticket
  verify_and_process_commit_ticket-Keeps cp qc = Keeps-reading λ s.
      Keeps-if (not (nat_eq cp.slot s.slot || is_next_slot env s cp)) (Keeps-pure _) (
        Keeps-if (is_known_certificate s.follower.buffered_quorum_certificate qc) (Keeps-pure _) (
          Keeps-if (not (current_slot_prepare_is_present s))
            (Keeps-bind (verify_quorum_certificate-Keeps st _ qc) (λ _. Keeps-pure _))
            (Keeps-bind (commit_current-Keeps qc) (λ _. Keeps-pure _))))

  pub process_ticket-Keeps :
      (cp : ConsensusProposal) (ticket : Ticket) (view : View)
      → Keeps P (process_ticket env cp ticket view)
  unfolding process_ticket
  process_ticket-Keeps cp genesis_ticket view =
      Keeps-reading (λ s. Keeps-bind (Keeps-require _ _) (λ _. Keeps-pure _))
  process_ticket-Keeps cp (commit_qc qc) view = verify_and_process_commit_ticket-Keeps cp qc
  process_ticket-Keeps cp (timeout_qc qc kind) view =
      verify_and_process_tc_ticket-Keeps qc kind cp view
  process_ticket-Keeps cp forced_commit_qc view = Keeps-bail _
