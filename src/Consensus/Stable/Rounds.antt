-- ===== src/Consensus/Stable/Rounds.antt =====
-- Stable properties through the methods that the roles share.
use hyle.Prelude.{◌≡◌, refl, false, Option, none, some, List, [], ◌∷◌, Result, ok, err}
use hyle.Prelude.Exec.{
  Done, Keeps, Keeps-modify, Keeps-pure, Keeps-bail, Keeps-gets, Keeps-ok_or, Keeps-reading,
  Keeps-if, Keeps-bind, keeps_rules, ◌>>=◌, reading,
}
use hyle.Model.{Bytes, ValidatorPublicKey}
use hyle.Contracts.Staking.{pay_for_dadi, distribute_fees, Staking, StakingError}
use hyle.Proposals.{AggregateSignature, ConsensusStakingAction, bonds, pays_fees_for_dadi}
use hyle.Consensus.Messages.{
  SignedContent, CommitQc, Ticket, genesis_ticket, forced_commit_qc, commit_qc, timeout_qc,
}
use hyle.Consensus.{Env, Consensus, Output, StateTag}
use hyle.Consensus.Round.{
  send, set_tag, round_leader, next_view_leader, verify_quorum_certificate, get_own_voting_power,
  schedule_next, run_staking, apply_actions, finish_slot, apply_kind, take_role, apply_ticket,
  sign_content, sign_aggregate, send_candidacy, prepare_next_slot, advance_round,
}
use hyle.Consensus.Stable.{Stable, is_commit}

module _ {env : Env} {P : Consensus → Type 0} (st : Stable env P) where
  pub send-Keeps : (o : Output) → is_commit o ≡ false → Keeps P (send o)
  unfolding send
  send-Keeps o h = Keeps-modify _ (λ s p. st.sends s o h p)

  pub set_tag-Keeps : (t : StateTag) → Keeps P (set_tag t)
  set_tag-Keeps t = Keeps-modify _ (λ s p. st.tags s t p)

  pub round_leader-Keeps : Keeps P round_leader
  unfolding round_leader
  round_leader-Keeps = search keeps_rules

  pub next_view_leader-Keeps : Keeps P next_view_leader
  unfolding next_view_leader
  next_view_leader-Keeps = search keeps_rules

  pub verify_quorum_certificate-Keeps :
      (content : SignedContent) (qc : AggregateSignature)
      → Keeps P (verify_quorum_certificate env content qc)
  unfolding verify_quorum_certificate
  verify_quorum_certificate-Keeps content qc = search keeps_rules

  pub get_own_voting_power-Keeps : Keeps P (get_own_voting_power env)
  unfolding get_own_voting_power
  get_own_voting_power-Keeps = search keeps_rules

  pub schedule_next-Keeps : Keeps P (schedule_next env)
  unfolding schedule_next
  schedule_next-Keeps = Keeps-modify _ (λ s p. st.schedules s _ p)

  run_result-Keeps :
      (r : Result StakingError Done) (staking : Staking) (s : Consensus)
      → P s
      → P (run_staking env (λ x. (r, staking)) s).1
  unfolding run_staking reading ◌>>=◌
  run_result-Keeps (ok done) staking s p = st.stakes s staking p
  run_result-Keeps (err e) staking s p = st.stakes s staking p

  pub run_staking-Keeps :
      (f : Staking → Result StakingError Done × Staking) → Keeps P (run_staking env f)
  unfolding run_staking reading
  run_staking-Keeps f = record { at = λ s p. run_result-Keeps (f s.staking).0 (f s.staking).1 s p }

  apply_actions-Keeps :
      (actions : List ConsensusStakingAction) → Keeps P (apply_actions env actions)
  unfolding apply_actions
  apply_actions-Keeps [] = Keeps-pure tt
  apply_actions-Keeps (bonds candidate ∷ more) =
      Keeps-bind (run_staking-Keeps _) (λ _. apply_actions-Keeps more)
  apply_actions-Keeps (pays_fees_for_dadi lane_id size ∷ more) =
      Keeps-bind
        (run_staking-Keeps (λ s. (ok tt, record s { fees = pay_for_dadi s.fees lane_id size })))
        (λ _. apply_actions-Keeps more)

  finish_slot-Keeps : (qc : Option CommitQc) → Keeps P (finish_slot env qc)
  unfolding finish_slot
  finish_slot-Keeps qc = Keeps-bind (Keeps-modify _ (λ s p. st.follows _ _ (st.slots s p))) λ _.
      Keeps-bind (Keeps-gets _) λ actions.
        Keeps-bind (Keeps-modify _ (λ s p. st.proposals s _ p)) λ _.
          Keeps-bind (apply_actions-Keeps actions) (λ _. run_staking-Keeps (λ s.
            let (r, fees') = distribute_fees s.fees s.bonded in (r, record s { fees = fees' })))

  apply_kind-Keeps : (ticket : Ticket) → Keeps P (apply_kind env ticket)
  unfolding apply_kind
  apply_kind-Keeps (commit_qc qc) = finish_slot-Keeps (some qc)
  apply_kind-Keeps forced_commit_qc = finish_slot-Keeps none
  apply_kind-Keeps (timeout_qc qc kind) = Keeps-modify _ (λ s p. st.follows _ _ (st.views s p))
  apply_kind-Keeps genesis_ticket = Keeps-bail _

  take_role-Keeps : Keeps P (take_role env)
  unfolding take_role
  take_role-Keeps = Keeps-bind round_leader-Keeps λ leader.
      Keeps-if _ (set_tag-Keeps _) (Keeps-bind (set_tag-Keeps _) (λ _. schedule_next-Keeps))

  apply_ticket-Keeps : (ticket : Ticket) → Keeps P (apply_ticket env ticket)
  unfolding apply_ticket
  apply_ticket-Keeps ticket = Keeps-reading λ s. Keeps-if _ (Keeps-bail _) (
      Keeps-bind (Keeps-modify _ (λ t p. st.requests _ _ (st.leads t _ p)))
        (λ _. Keeps-bind (apply_kind-Keeps ticket) (λ _. take_role-Keeps)))

  pub sign_content-Keeps :
      {T : Type 0} (msg : T) (content : SignedContent) → Keeps P (sign_content env msg content)
  unfolding sign_content
  sign_content-Keeps msg content = Keeps-bind (Keeps-ok_or _ _) (λ _. Keeps-pure _)

  pub sign_aggregate-Keeps :
      (content : SignedContent) (signatures : List (Bytes × ValidatorPublicKey))
      → Keeps P (sign_aggregate env content signatures)
  unfolding sign_aggregate
  sign_aggregate-Keeps content signatures = Keeps-bind (Keeps-ok_or _ _) (λ _. Keeps-ok_or _ _)

  send_candidacy-Keeps : Keeps P (send_candidacy env)
  unfolding send_candidacy
  send_candidacy-Keeps = Keeps-bind (sign_content-Keeps _ _) (λ _. send-Keeps _ refl)

  prepare_next_slot-Keeps : (ticket : Ticket) → Keeps P (prepare_next_slot env ticket)
  unfolding prepare_next_slot
  prepare_next_slot-Keeps ticket =
      Keeps-bind (Keeps-modify _ (λ t p. st.leads t _ p)) (λ _. send-Keeps _ refl)

  pub advance_round-Keeps : (ticket : Ticket) → Keeps P (advance_round env ticket)
  unfolding advance_round
  advance_round-Keeps ticket = Keeps-bind (apply_ticket-Keeps ticket) λ _. Keeps-reading λ s.
      Keeps-if _ (prepare_next_slot-Keeps ticket)
        (Keeps-if _ (Keeps-pure tt) (Keeps-if _ send_candidacy-Keeps (Keeps-pure tt)))
