-- ===== src/Consensus/Timeout.antt =====
-- Timeouts and their certificates: src/consensus/role_timeout.rs.
use hyle.Prelude.{
  not, ℕ, Bool, true, false, ◌&&◌, ◌||◌, Option, none, some, List, [], ◌∷◌, map, if◌then◌else◌, any,
  ltb, leb, nat_eq,
}
use hyle.Prelude.Exec.{Done, pure, reading, ok_or, modify, require, ◌>>=◌, ◌>>◌}
use hyle.Prelude.Key.{◌==◌, string_key}
use hyle.Prelude.Word.{add_u128, mul_u128}
use hyle.Model.{bytes_key}
use hyle.Contracts.Staking.{compute_voting_power, compute_f}
use hyle.Proposals.{Slot, View, ConsensusProposal}
use hyle.Consensus.Messages.{
  SignedContent, prepare_vote_content, timeout_content, PrepareQc, TimeoutQc, TcKind,
  nil_certificate, prepare_certificate, TimeoutBody, SignedTimeout, TimeoutKind, nil_proposal,
  with_prepare, ConsensusTimeout, timeout_eq, timeout_qc, timeout, timeout_certificate,
}
use hyle.Consensus.{
  Env, Consensus, wrong_proposal_slot, mixed_timeouts, M, broadcast, TimeoutRoleState, TimeoutState,
  inactive, certificate_emitted, scheduled, leader_tag,
}
use hyle.Consensus.Round.{
  send, set_tag, is_joining, next_view_leader, is_part_of_consensus, verify_quorum_certificate,
  get_own_voting_power, schedule_next, sign_content, sign_aggregate, signatures_of, advance_round,
}

unfoldable pub update_highest_seen_prepare_qc :
    TimeoutRoleState → Slot → PrepareQc → TimeoutRoleState × Bool
update_highest_seen_prepare_qc t slot qc =
    let updated : TimeoutRoleState × Bool =
      (record t { highest_seen_prepare_qc = some (slot, qc) }, true) in
    elim t.highest_seen_prepare_qc [
      | none ↦ updated
      | some (seen, old) ↦ if ltb slot seen then (t, false) else updated
    ]

abbrev is_emitted : TimeoutState → Bool
is_emitted certificate_emitted = true
is_emitted _ = false

abbrev timeout_of : Consensus → SignedContent
timeout_of s = timeout_content s.slot s.view s.parent_hash

-- "All messages should be Nil Timeout messages"
unfoldable pub nil_messages : List ConsensusTimeout → Option (List SignedTimeout)
nil_messages [] = some []
nil_messages ((signed, nil_proposal message) ∷ more) = elim (nil_messages more) [
  | none ↦ none
  | some messages ↦ some (message ∷ messages)
]
nil_messages ((signed, with_prepare qc cp) ∷ more) = none

unfoldable pub add_request : ConsensusTimeout → M Done
add_request request = modify (λ s.
    if any (timeout_eq request) s.timeouts.requests
    then s
    else record s { timeouts = record s.timeouts { requests = request ∷ s.timeouts.requests } })

module _ (env : Env) where
  -- The certificate is kept, and its proposal becomes the current one, unless one of a later slot
  -- was seen.
  unfoldable pub see_prepare_qc : Slot → PrepareQc → ConsensusProposal → M Done
  unfolding update_highest_seen_prepare_qc
  see_prepare_qc slot qc cp = modify (λ s.
      let (timeouts', updated) = update_highest_seen_prepare_qc s.timeouts slot qc in
      if updated then record s { timeouts = timeouts'; current_proposal = cp } else s)

  unfoldable pub verify_tc : TimeoutQc → TcKind → Slot → View → M Done
  unfolding verify_quorum_certificate see_prepare_qc
  verify_tc qc nil_certificate slot view =
      reading (λ s. verify_quorum_certificate env (timeout_content slot view s.parent_hash) qc)
  verify_tc qc (prepare_certificate prepare_qc cp) slot view = do
    reading (λ s. verify_quorum_certificate env (timeout_content slot view s.parent_hash) qc)
    require (nat_eq cp.slot slot) wrong_proposal_slot
    verify_quorum_certificate env (prepare_vote_content (env.hashed cp)) prepare_qc
    see_prepare_qc slot prepare_qc cp

  -- The node leaves `Joining` where the next leader is another one; the source names this test
  -- `is_next_view_leader`.
  unfoldable pub leave_joining : M Done
  unfolding next_view_leader
  leave_joining = do
    next ← next_view_leader
    reading (λ s.
        if not (next == env.validator_pubkey) && is_joining s.state_tag
        then set_tag leader_tag
        else pure tt)

  unfoldable pub on_timeout_certificate : TimeoutQc → TcKind → Slot → View → M Done
  unfolding verify_tc leave_joining advance_round
  on_timeout_certificate qc kind slot view = reading (λ s.
      if ltb slot s.slot || (nat_eq slot s.slot && ltb view s.view)
      then pure tt
      else if ltb s.slot slot || ltb s.view view
      then pure tt
      else (do verify_tc qc kind slot view; leave_joining; advance_round env (timeout_qc qc kind)))

  unfoldable pub get_timeout_message : M ConsensusTimeout
  unfolding sign_content
  get_timeout_message = reading (λ s.
      let body : TimeoutBody = (s.slot, s.view, s.parent_hash) in
      let as_nil : SignedTimeout → M ConsensusTimeout = (λ signed. do
        again ← sign_content env body (timeout_of s)
        pure (signed, nil_proposal again)) in
      do
        signed ← sign_content env body (timeout_of s)
        elim s.timeouts.highest_seen_prepare_qc [
          | none ↦ as_nil signed
          | some (seen, qc) ↦
              if nat_eq seen s.slot
              then pure (signed, with_prepare qc s.current_proposal)
              else as_nil signed
        ])

  unfoldable pub nil_ticket : Consensus → M (TimeoutQc × TcKind)
  unfolding sign_aggregate nil_messages
  nil_ticket s = do
    messages ← ok_or mixed_timeouts (nil_messages s.timeouts.requests)
    certificate ← sign_aggregate env (timeout_of s) (signatures_of messages)
    pure (certificate, nil_certificate)

  unfoldable pub create_ticket : Slot → M (TimeoutQc × TcKind)
  unfolding sign_aggregate nil_ticket
  create_ticket received_slot = reading (λ s. elim s.timeouts.highest_seen_prepare_qc [
    | none ↦ nil_ticket s
    | some (seen, qc) ↦
        if nat_eq seen received_slot
        then (do
          certificate ←
              sign_aggregate env (timeout_of s)
                (signatures_of (map (λ (r : ConsensusTimeout). r.0) s.timeouts.requests))
          pure (certificate, prepare_certificate qc s.current_proposal))
        else nil_ticket s
  ])

  unfoldable pub emit_certificate : Slot → View → M Done
  unfolding create_ticket schedule_next next_view_leader send advance_round
  emit_certificate received_slot received_view = do
    ticket ← create_ticket received_slot
    schedule_next env
    next ← next_view_leader
    reading (λ s.
        if next == env.validator_pubkey
        then (if is_joining s.state_tag then set_tag leader_tag else pure tt)
        else (do
          send (broadcast (timeout_certificate ticket.0 ticket.1 received_slot received_view))
          modify (λ t. record t {
            timeouts = record t.timeouts { timeout_state = certificate_emitted };
          })))
    advance_round env (timeout_qc ticket.0 ticket.1)

  -- "Join the mutiny" with an own timeout; the answer is the voting power after that.
  unfoldable pub join_mutiny : ℕ → M ℕ
  unfolding get_timeout_message add_request send get_own_voting_power schedule_next
  join_mutiny voting_power = do
    own ← get_timeout_message
    add_request own
    send (broadcast (timeout own.0 own.1))
    own_power ← get_own_voting_power env
    schedule_next env
    pure (add_u128 voting_power own_power)

  unfoldable pub count_timeouts : Slot → View → M Done
  unfolding join_mutiny emit_certificate compute_f compute_voting_power
  count_timeouts received_slot received_view = reading (λ s.
      let f = compute_f s.staking in
      let validators = map (λ (r : ConsensusTimeout). r.0.validator) s.timeouts.requests in
      let power = compute_voting_power s.staking validators in
      do
        voting_power ←
            if ltb f power && not (any (λ v. v == env.validator_pubkey) validators)
            then join_mutiny power
            else pure power
        reading (λ t.
            if ltb (mul_u128 2 f) voting_power && not (is_emitted t.timeouts.timeout_state)
            then emit_certificate received_slot received_view
            else pure tt))

  unfoldable pub see_timeout_kind : Slot → TimeoutKind → M Done
  unfolding verify_quorum_certificate see_prepare_qc
  see_timeout_kind slot (nil_proposal message) = pure tt
  see_timeout_kind slot (with_prepare qc cp) = do
    require (nat_eq cp.slot slot) wrong_proposal_slot
    verify_quorum_certificate env (prepare_vote_content (env.hashed cp)) qc
    see_prepare_qc slot qc cp

  -- A timeout of our slot and view.
  unfoldable pub process_timeout : SignedTimeout → TimeoutKind → M Done
  unfolding see_timeout_kind add_request count_timeouts
  process_timeout received kind = do
    see_timeout_kind received.msg.0 kind
    reading (λ t.
        if any (timeout_eq (received, kind)) t.timeouts.requests
        then pure tt
        else (do add_request (received, kind); count_timeouts received.msg.0 received.msg.1))

  unfoldable pub on_timeout : SignedTimeout → TimeoutKind → M Done
  unfolding process_timeout is_part_of_consensus
  on_timeout received kind = reading (λ s.
      if not (is_part_of_consensus s env.validator_pubkey)
      then pure tt
      else if not (received.msg.2 == s.parent_hash)
      then pure tt
      else if ltb received.msg.0 s.slot
      then pure tt
      else if not (nat_eq received.msg.0 s.slot && nat_eq received.msg.1 s.view)
      then pure tt
      else process_timeout received kind)

  unfoldable pub tick_in : TimeoutState → M Done
  unfolding get_timeout_message on_timeout send schedule_next
  tick_in (scheduled timestamp) =
      if leb timestamp env.now
      then (do
        own ← get_timeout_message
        on_timeout own.0 own.1
        send (broadcast (timeout own.0 own.1))
        schedule_next env)
      else pure tt
  tick_in inactive = pure tt
  tick_in certificate_emitted = pure tt

  unfoldable pub on_timeout_tick : M Done
  unfolding tick_in
  on_timeout_tick = reading (λ s. tick_in s.timeouts.timeout_state)
