-- ===== src/Consensus/Leader.antt =====
-- The leader of a round: src/consensus/role_leader.rs.
use hyle.Prelude.{
  not, ◌-◌, Bool, true, false, ◌&&◌, ◌||◌, Option, none, some, List, [], ◌∷◌, ◌++◌, map,
  if◌then◌else◌, any, retain, ltb, nat_eq, min, unwrap_or,
}
use hyle.Prelude.Exec.{Done, pure, bail, reading, ok_or, modify, require, ◌>>=◌, ◌>>◌}
use hyle.Prelude.Key.{◌==◌, string_key}
use hyle.Prelude.Word.{add_u128, mul_u128}
use hyle.Model.{ValidatorPublicKey, bytes_key}
use hyle.Contracts.Staking.{
  Staking, is_bonded, get_stake, min_stake, compute_voting_power, compute_f,
}
use hyle.Proposals.{
  TimestampMs, SignedByValidator, Cut, cut_eq, ConsensusProposalHash, ConsensusStakingAction, bonds,
  pays_fees_for_dadi, ValidatorCandidacy,
}
use hyle.Consensus.Messages.{
  prepare_vote_content, confirm_ack_content, PrepareVote, ConfirmAck, vote_eq, Ticket, timeout_qc,
  prepare, confirm, commit,
}
use hyle.Consensus.{
  Env, LeaderStep, start_new_slot, at_prepare_vote, at_confirm_ack, wrong_step, not_leader,
  no_ticket, wrong_proposal, M, broadcast, delayed_start_new_slot,
}
use hyle.Consensus.Round.{
  send, is_leader, round_leader, sign_aggregate, signatures_of, get_own_voting_power,
}
use hyle.Consensus.Checks.{CutEntry}
use hyle.Consensus.Follower.{push_prepare, commit_current}

abbrev is_start : LeaderStep → Bool
is_start start_new_slot = true
is_start _ = false

abbrev pub is_prepare_vote : LeaderStep → Bool
is_prepare_vote at_prepare_vote = true
is_prepare_vote _ = false

abbrev pub is_confirm_ack : LeaderStep → Bool
is_confirm_ack at_confirm_ack = true
is_confirm_ack _ = false

abbrev is_timeout : Ticket → Bool
is_timeout (timeout_qc qc kind) = true
is_timeout _ = false

-- `may_delay` is in the future, or absent.
abbrev may_wait : Option TimestampMs → TimestampMs → Bool
may_wait none now = true
may_wait (some until) now = ltb now until

-- The candidates that are bonded next.
abbrev can_bond : Staking → SignedByValidator ValidatorCandidacy → Bool
can_bond staking v =
    ltb min_stake (unwrap_or (get_stake staking v.validator) 0)
    && not (is_bonded staking v.validator)

abbrev fee_action : CutEntry → ConsensusStakingAction
fee_action entry = pays_fees_for_dadi entry.0 entry.2

unfoldable pub insert_vote :
    SignedByValidator ConsensusProposalHash
    → List (SignedByValidator ConsensusProposalHash)
    → List (SignedByValidator ConsensusProposalHash)
insert_vote vote votes = if any (vote_eq vote) votes then votes else vote ∷ votes

abbrev pub signers : List (SignedByValidator ConsensusProposalHash) → List ValidatorPublicKey
signers = map (λ (v : SignedByValidator ConsensusProposalHash). v.validator)

module _ (env : Env) where
  unfoldable pub delay_slot : Ticket → Option TimestampMs → M Done
  unfolding send
  delay_slot ticket may_delay = do
    modify (λ s. record s { leader = record s.leader { pending_ticket = some ticket } })
    let max_delay = unwrap_or may_delay (add_u128 env.now env.slot_duration)
    send (delayed_start_new_slot (min (max_delay - env.now) 500) max_delay)

  unfoldable pub create_proposal : Cut → M Done
  unfolding is_bonded get_stake
  create_proposal cut = modify (λ s.
      let new_validators = retain (can_bond s.staking) s.validator_candidates in
      record s {
        validator_candidates = [];
        current_proposal = record {
          slot = s.slot;
          parent_hash = s.parent_hash;
          cut = cut;
          staking_actions = map bonds new_validators ++ map fee_action cut;
          timestamp = env.now;
        };
      })

  unfoldable pub broadcast_prepare : Ticket → M Done
  unfolding push_prepare send
  broadcast_prepare ticket = do
    modify (λ s. record s { leader = record s.leader { step = at_prepare_vote } })
    reading (λ s. push_prepare env (env.validator_pubkey, s.current_proposal, ticket, s.view))
    reading (λ s. send (broadcast (prepare s.current_proposal ticket s.view)))

  -- A cut from the mempool, or `none` where it gave none in time.
  unfoldable pub propose : Option TimestampMs → Option Cut → Ticket → M Done
  unfolding delay_slot create_proposal broadcast_prepare cut_eq
  propose may_delay none ticket = do
    reading (λ s. create_proposal s.parent_cut)
    broadcast_prepare ticket
  propose may_delay (some cut) ticket = reading (λ s.
      if may_wait may_delay env.now && (not (is_timeout ticket) && cut_eq cut s.parent_cut)
      then delay_slot ticket may_delay
      else (do create_proposal cut; broadcast_prepare ticket))

  unfoldable pub start_round : Option TimestampMs → Option Cut → M Done
  unfolding round_leader propose broadcast_prepare
  start_round may_delay mempool_cut = do
    reading (λ s. require (is_start s.leader.step) wrong_step)
    reading (λ s. if is_leader s.state_tag then pure tt else (do round_leader; bail not_leader))
    ticket ← reading (λ s. ok_or no_ticket s.leader.pending_ticket)
    modify (λ s. record s { leader = record s.leader { pending_ticket = none } })
    reading (λ s.
        if nat_eq s.current_proposal.slot s.slot
        then broadcast_prepare ticket
        else propose may_delay mempool_cut ticket)

  unfoldable pub confirm_proposal : M Done
  unfolding sign_aggregate send
  confirm_proposal = reading (λ s.
      let hash = env.hashed s.current_proposal in
      do
        qc ← sign_aggregate env (prepare_vote_content hash) (signatures_of s.leader.prepare_votes)
        modify (λ t. record t { leader = record t.leader { step = at_confirm_ack } })
        send (broadcast (confirm qc hash)))

  unfoldable pub on_prepare_vote : PrepareVote → M Done
  unfolding insert_vote compute_voting_power compute_f get_own_voting_power confirm_proposal
  on_prepare_vote vote = reading (λ s.
      if not (is_leader s.state_tag) || not (is_prepare_vote s.leader.step)
      then pure tt
      else if not (vote.msg == env.hashed s.current_proposal)
      then bail wrong_proposal
      else (do
        modify (λ t. record t {
          leader = record t.leader { prepare_votes = insert_vote vote t.leader.prepare_votes };
        })
        own ← get_own_voting_power env
        reading (λ t.
            let power =
              add_u128 (compute_voting_power t.staking (signers t.leader.prepare_votes)) own in
            if ltb (mul_u128 2 (compute_f t.staking)) power then confirm_proposal else pure tt)))

  unfoldable pub commit_proposal : ConsensusProposalHash → M Done
  unfolding sign_aggregate send commit_current
  commit_proposal acknowledged = do
    qc ← reading (λ s.
        sign_aggregate env (confirm_ack_content (env.hashed s.current_proposal))
          (signatures_of s.leader.confirm_ack))
    send (broadcast (commit qc acknowledged))
    commit_current env qc

  unfoldable pub on_confirm_ack : ConfirmAck → M Done
  unfolding insert_vote compute_voting_power compute_f get_own_voting_power commit_proposal
  on_confirm_ack ack = reading (λ s.
      if not (is_leader s.state_tag) || not (is_confirm_ack s.leader.step)
      then pure tt
      else if not (ack.msg == env.hashed s.current_proposal)
      then bail wrong_proposal
      else if any (vote_eq ack) s.leader.confirm_ack
      then pure tt
      else (do
        modify (λ t. record t {
          leader = record t.leader { confirm_ack = insert_vote ack t.leader.confirm_ack };
        })
        own ← get_own_voting_power env
        reading (λ t.
            let power =
              add_u128 (compute_voting_power t.staking (signers t.leader.confirm_ack)) own in
            if ltb (mul_u128 2 (compute_f t.staking)) power
            then commit_proposal ack.msg
            else pure tt)))
