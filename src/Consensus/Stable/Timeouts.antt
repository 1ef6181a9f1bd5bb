-- ===== src/Consensus/Stable/Timeouts.antt =====
-- Stable properties through the methods of src/consensus/role_timeout.rs.
use hyle.Prelude.{refl, false, true, not, any, ◌∷◌, if◌then◌else◌, ltb, nat_eq, ◌&&◌}
use hyle.Prelude.Key.{◌==◌, string_key}
use hyle.Prelude.Exec.{
  Keeps, Keeps-modify, Keeps-pure, Keeps-ok_or, Keeps-reading, Keeps-if, Keeps-require,
  Keeps-option, Keeps-bind,
}
use hyle.Proposals.{Slot, View, ConsensusProposal}
use hyle.Consensus.Messages.{
  timeout_qc, PrepareQc, TimeoutQc, TcKind, nil_certificate, prepare_certificate, TimeoutKind,
  nil_proposal, with_prepare, SignedTimeout, ConsensusTimeout, timeout_eq,
}
use hyle.Consensus.{Env, Consensus, TimeoutState, inactive, certificate_emitted, scheduled}
use hyle.Consensus.Round.{is_part_of_consensus}
use hyle.Consensus.Timeout.{
  update_highest_seen_prepare_qc, add_request, see_prepare_qc, verify_tc, leave_joining,
  on_timeout_certificate, get_timeout_message, nil_ticket, create_ticket, emit_certificate,
  join_mutiny, count_timeouts, see_timeout_kind, process_timeout, on_timeout, tick_in,
  on_timeout_tick,
}
use hyle.Consensus.Stable.{Stable}
use hyle.Consensus.Stable.Rounds.{
  send-Keeps, set_tag-Keeps, next_view_leader-Keeps, verify_quorum_certificate-Keeps,
  get_own_voting_power-Keeps, schedule_next-Keeps, sign_content-Keeps, sign_aggregate-Keeps,
  advance_round-Keeps,
}

module _ {env : Env} {P : Consensus → Type 0} (st : Stable env P) where
  add_request-Keeps : (request : ConsensusTimeout) → Keeps P (add_request request)
  unfolding add_request
  add_request-Keeps request = Keeps-modify _ (λ s p.
      elim (any (timeout_eq request) s.timeouts.requests)
        as (λ b. P (
          if b then s else record s {
            timeouts = record s.timeouts { requests = request ∷ s.timeouts.requests };
          })) [ true ↦ p | false ↦ st.requests s _ p ])

  see_prepare_qc-Keeps :
      (slot : Slot) (qc : PrepareQc) (cp : ConsensusProposal)
      → Keeps P (see_prepare_qc env slot qc cp)
  unfolding see_prepare_qc
  see_prepare_qc-Keeps slot qc cp = Keeps-modify _ (λ s p.
      elim (update_highest_seen_prepare_qc s.timeouts slot qc).1
        as (λ b. P (
          if b
          then record s {
            timeouts = (update_highest_seen_prepare_qc s.timeouts slot qc).0;
            current_proposal = cp;
          }
          else s)) [ true ↦ st.proposals _ cp (st.sees s slot qc p) | false ↦ p ])

  pub verify_tc-Keeps :
      (qc : TimeoutQc) (kind : TcKind) (slot : Slot) (view : View)
      → Keeps P (verify_tc env qc kind slot view)
  unfolding verify_tc
  verify_tc-Keeps qc nil_certificate slot view =
      Keeps-reading (λ s. verify_quorum_certificate-Keeps st _ qc)
  verify_tc-Keeps qc (prepare_certificate prepare_qc cp) slot view =
      Keeps-bind (Keeps-reading (λ s. verify_quorum_certificate-Keeps st _ qc)) λ _.
        Keeps-bind (Keeps-require _ _) λ _.
          Keeps-bind (verify_quorum_certificate-Keeps st _ prepare_qc)
            λ _. see_prepare_qc-Keeps slot prepare_qc cp

  leave_joining-Keeps : Keeps P (leave_joining env)
  unfolding leave_joining
  leave_joining-Keeps =
      Keeps-bind (next_view_leader-Keeps st)
        λ next. Keeps-reading (λ s. Keeps-if _ (set_tag-Keeps st _) (Keeps-pure tt))

  pub on_timeout_certificate-Keeps :
      (qc : TimeoutQc) (kind : TcKind) (slot : Slot) (view : View)
      → Keeps P (on_timeout_certificate env qc kind slot view)
  unfolding on_timeout_certificate
  on_timeout_certificate-Keeps qc kind slot view = Keeps-reading λ s. Keeps-if _ (Keeps-pure tt) (
      Keeps-if _ (Keeps-pure tt) (
        Keeps-bind (verify_tc-Keeps qc kind slot view)
          (λ _. Keeps-bind leave_joining-Keeps (λ _. advance_round-Keeps st (timeout_qc qc kind)))))

  get_timeout_message-Keeps : Keeps P (get_timeout_message env)
  unfolding get_timeout_message
  get_timeout_message-Keeps = Keeps-reading λ s. Keeps-bind (sign_content-Keeps st _ _) λ signed.
      Keeps-option s.timeouts.highest_seen_prepare_qc
        (Keeps-bind (sign_content-Keeps st _ _) (λ _. Keeps-pure _))
        λ seen.
          Keeps-if _ (Keeps-pure _) (Keeps-bind (sign_content-Keeps st _ _) (λ _. Keeps-pure _))

  nil_ticket-Keeps : (s : Consensus) → Keeps P (nil_ticket env s)
  unfolding nil_ticket
  nil_ticket-Keeps s =
      Keeps-bind (Keeps-ok_or _ _)
        (λ _. Keeps-bind (sign_aggregate-Keeps st _ _) (λ _. Keeps-pure _))

  create_ticket-Keeps : (slot : Slot) → Keeps P (create_ticket env slot)
  unfolding create_ticket
  create_ticket-Keeps slot = Keeps-reading λ s.
      Keeps-option s.timeouts.highest_seen_prepare_qc (nil_ticket-Keeps s) λ seen.
        Keeps-if _ (Keeps-bind (sign_aggregate-Keeps st _ _) (λ _. Keeps-pure _))
          (nil_ticket-Keeps s)

  emit_certificate-Keeps : (slot : Slot) (view : View) → Keeps P (emit_certificate env slot view)
  unfolding emit_certificate
  emit_certificate-Keeps slot view = Keeps-bind (create_ticket-Keeps slot) λ ticket.
      Keeps-bind (schedule_next-Keeps st) λ _. Keeps-bind (next_view_leader-Keeps st) λ next.
        Keeps-bind
          (Keeps-reading (λ s. Keeps-if _ (Keeps-if _ (set_tag-Keeps st _) (Keeps-pure tt)) (
            Keeps-bind (send-Keeps st _ refl)
              (λ _. Keeps-modify _ (λ t p. st.schedules t certificate_emitted p)))))
          λ _. advance_round-Keeps st (timeout_qc ticket.0 ticket.1)

  join_mutiny-Keeps : (power : _) → Keeps P (join_mutiny env power)
  unfolding join_mutiny
  join_mutiny-Keeps power = Keeps-bind get_timeout_message-Keeps λ own.
      Keeps-bind (add_request-Keeps own) λ _. Keeps-bind (send-Keeps st _ refl) λ _.
        Keeps-bind (get_own_voting_power-Keeps st)
          λ _. Keeps-bind (schedule_next-Keeps st) (λ _. Keeps-pure _)

  count_timeouts-Keeps : (slot : Slot) (view : View) → Keeps P (count_timeouts env slot view)
  unfolding count_timeouts
  count_timeouts-Keeps slot view = Keeps-reading λ s.
      Keeps-bind (Keeps-if _ (join_mutiny-Keeps _) (Keeps-pure _))
        λ power. Keeps-reading (λ t. Keeps-if _ (emit_certificate-Keeps slot view) (Keeps-pure tt))

  see_timeout_kind-Keeps :
      (slot : Slot) (kind : TimeoutKind) → Keeps P (see_timeout_kind env slot kind)
  unfolding see_timeout_kind
  see_timeout_kind-Keeps slot (nil_proposal message) = Keeps-pure tt
  see_timeout_kind-Keeps slot (with_prepare qc cp) =
      Keeps-bind (Keeps-require _ _) λ _.
        Keeps-bind (verify_quorum_certificate-Keeps st _ qc) λ _. see_prepare_qc-Keeps slot qc cp

  process_timeout-Keeps :
      (received : SignedTimeout) (kind : TimeoutKind) → Keeps P (process_timeout env received kind)
  unfolding process_timeout
  process_timeout-Keeps received kind = Keeps-bind (see_timeout_kind-Keeps received.msg.0 kind) λ _.
      Keeps-reading λ t. Keeps-if _ (Keeps-pure tt) (
        Keeps-bind (add_request-Keeps (received, kind))
          (λ _. count_timeouts-Keeps received.msg.0 received.msg.1))

  pub on_timeout-Keeps :
      (received : SignedTimeout) (kind : TimeoutKind) → Keeps P (on_timeout env received kind)
  unfolding on_timeout
  on_timeout-Keeps received kind = Keeps-reading λ s.
      Keeps-if (not (is_part_of_consensus s env.validator_pubkey)) (Keeps-pure tt) (
        Keeps-if (not (received.msg.2 == s.parent_hash)) (Keeps-pure tt) (
          Keeps-if (ltb received.msg.0 s.slot) (Keeps-pure tt) (
            Keeps-if (not (nat_eq received.msg.0 s.slot && nat_eq received.msg.1 s.view))
              (Keeps-pure tt) (process_timeout-Keeps received kind))))

  tick_in-Keeps : (t : TimeoutState) → Keeps P (tick_in env t)
  unfolding tick_in
  tick_in-Keeps (scheduled timestamp) =
      Keeps-if _
        (Keeps-bind get_timeout_message-Keeps (λ own.
          Keeps-bind (on_timeout-Keeps own.0 own.1)
            (λ _. Keeps-bind (send-Keeps st _ refl) (λ _. schedule_next-Keeps st))))
        (Keeps-pure tt)
  tick_in-Keeps inactive = Keeps-pure tt
  tick_in-Keeps certificate_emitted = Keeps-pure tt

  pub on_timeout_tick-Keeps : Keeps P (on_timeout_tick env)
  unfolding on_timeout_tick
  on_timeout_tick-Keeps = Keeps-reading (λ s. tick_in-Keeps s.timeouts.timeout_state)
