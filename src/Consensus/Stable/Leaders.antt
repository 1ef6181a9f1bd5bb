-- ===== src/Consensus/Stable/Leaders.antt =====
-- Stable properties through the methods of src/consensus/role_leader.rs.
use hyle.Prelude.{refl, not, Option, none, some, any, ◌||◌}
use hyle.Prelude.Exec.{
  Keeps, Keeps-modify, Keeps-pure, Keeps-bail, Keeps-ok_or, Keeps-reading, Keeps-if, Keeps-require,
  Keeps-bind,
}
use hyle.Prelude.Key.{◌==◌, string_key}
use hyle.Proposals.{TimestampMs, Cut, ConsensusProposalHash}
use hyle.Consensus.Messages.{PrepareVote, ConfirmAck, vote_eq, Ticket}
use hyle.Consensus.{Env, Consensus}
use hyle.Consensus.Round.{is_leader}
use hyle.Consensus.Leader.{
  delay_slot, create_proposal, broadcast_prepare, propose, start_round, confirm_proposal,
  on_prepare_vote, commit_proposal, on_confirm_ack, is_prepare_vote, is_confirm_ack,
}
use hyle.Consensus.Stable.{Stable}
use hyle.Consensus.Stable.Rounds.{
  send-Keeps, round_leader-Keeps, get_own_voting_power-Keeps, sign_aggregate-Keeps,
}
use hyle.Consensus.Stable.Tickets.{push_prepare-Keeps, commit_current-Keeps}

module _ {env : Env} {P : Consensus → Type 0} (st : Stable env P) where
  delay_slot-Keeps :
      (ticket : Ticket) (may_delay : Option TimestampMs) → Keeps P (delay_slot env ticket may_delay)
  unfolding delay_slot
  delay_slot-Keeps ticket may_delay =
      Keeps-bind (Keeps-modify _ (λ s p. st.leads s _ p)) (λ _. send-Keeps st _ refl)

  create_proposal-Keeps : (cut : Cut) → Keeps P (create_proposal env cut)
  unfolding create_proposal
  create_proposal-Keeps cut = Keeps-modify _ (λ s p. st.candidates _ _ (st.proposals s _ p))

  broadcast_prepare-Keeps : (ticket : Ticket) → Keeps P (broadcast_prepare env ticket)
  unfolding broadcast_prepare
  broadcast_prepare-Keeps ticket = Keeps-bind (Keeps-modify _ (λ s p. st.leads s _ p)) λ _.
      Keeps-bind (Keeps-reading (λ s. push_prepare-Keeps st _))
        λ _. Keeps-reading (λ s. send-Keeps st _ refl)

  propose-Keeps :
      (may_delay : Option TimestampMs) (cut : Option Cut) (ticket : Ticket)
      → Keeps P (propose env may_delay cut ticket)
  unfolding propose
  propose-Keeps may_delay none ticket =
      Keeps-bind (Keeps-reading (λ s. create_proposal-Keeps s.parent_cut))
        (λ _. broadcast_prepare-Keeps ticket)
  propose-Keeps may_delay (some cut) ticket = Keeps-reading λ s.
      Keeps-if _ (delay_slot-Keeps ticket may_delay)
        (Keeps-bind (create_proposal-Keeps cut) (λ _. broadcast_prepare-Keeps ticket))

  pub start_round-Keeps :
      (may_delay : Option TimestampMs) (cut : Option Cut) → Keeps P (start_round env may_delay cut)
  unfolding start_round
  start_round-Keeps may_delay cut = Keeps-bind (Keeps-reading (λ s. Keeps-require _ _)) λ _.
      Keeps-bind
        (Keeps-reading (λ s.
          Keeps-if _ (Keeps-pure tt) (Keeps-bind (round_leader-Keeps st) (λ _. Keeps-bail _))))
        λ _. Keeps-bind (Keeps-reading (λ s. Keeps-ok_or _ _)) λ ticket.
          Keeps-bind (Keeps-modify _ (λ s p. st.leads s _ p)) λ _.
            Keeps-reading (λ s.
              Keeps-if _ (broadcast_prepare-Keeps ticket) (propose-Keeps may_delay cut ticket))

  confirm_proposal-Keeps : Keeps P (confirm_proposal env)
  unfolding confirm_proposal
  confirm_proposal-Keeps = Keeps-reading λ s.
      Keeps-bind (sign_aggregate-Keeps st _ _)
        (λ qc. Keeps-bind (Keeps-modify _ (λ t p. st.leads t _ p)) (λ _. send-Keeps st _ refl))

  pub on_prepare_vote-Keeps : (vote : PrepareVote) → Keeps P (on_prepare_vote env vote)
  unfolding on_prepare_vote
  on_prepare_vote-Keeps vote = Keeps-reading λ s.
      Keeps-if (not (is_leader s.state_tag) || not (is_prepare_vote s.leader.step)) (Keeps-pure tt)
        (Keeps-if _ (Keeps-bail _) (
          Keeps-bind (Keeps-modify _ (λ t p. st.leads t _ p)) (λ _.
            Keeps-bind (get_own_voting_power-Keeps st)
              (λ own. Keeps-reading (λ t. Keeps-if _ confirm_proposal-Keeps (Keeps-pure tt))))))

  commit_proposal-Keeps :
      (acknowledged : ConsensusProposalHash) → Keeps P (commit_proposal env acknowledged)
  unfolding commit_proposal
  commit_proposal-Keeps acknowledged =
      Keeps-bind (Keeps-reading (λ s. sign_aggregate-Keeps st _ _))
        (λ qc. Keeps-bind (send-Keeps st _ refl) (λ _. commit_current-Keeps st qc))

  pub on_confirm_ack-Keeps : (ack : ConfirmAck) → Keeps P (on_confirm_ack env ack)
  unfolding on_confirm_ack
  on_confirm_ack-Keeps ack = Keeps-reading λ s.
      Keeps-if (not (is_leader s.state_tag) || not (is_confirm_ack s.leader.step)) (Keeps-pure tt) (
        Keeps-if (not (ack.msg == env.hashed s.current_proposal)) (Keeps-bail _) (
          Keeps-if (any (vote_eq ack) s.leader.confirm_ack) (Keeps-pure tt) (
            Keeps-bind (Keeps-modify _ (λ t p. st.leads t _ p)) (λ _.
              Keeps-bind (get_own_voting_power-Keeps st) (λ own.
                Keeps-reading (λ t. Keeps-if _ (commit_proposal-Keeps ack.msg) (Keeps-pure tt)))))))
