-- ===== src/Consensus/Markers.antt =====
-- Certificates of votes and of acknowledgements: the markers of src/consensus/network.rs.
use hyle.Prelude.{
  ◌≡◌, refl, sym, subst, ◌&&◌, ◌∙◌, ap, Bool, true, false, not, List, [], ◌∷◌, ◌++◌, ◌⊎◌, inl, inr,
  ok, Result-cases, if◌then◌else◌, arith,
}
use hyle.Prelude.Exec.{◌>>=◌, reading, pure}
use hyle.Prelude.Key.{◌==◌, string_key, key_refl}
use hyle.Proposals.{ConsensusProposalHash}
use hyle.Consensus.Messages.{
  SignedContent, prepare_vote_content, confirm_ack_content, PrepareQc, CommitQc, commit_qc,
}
use hyle.Consensus.{
  Env, Consensus, StateTag, follower_tag, joining, leader_tag, Output, commit_consensus_proposal,
}
use hyle.Consensus.Round.{
  check_quorum_certificate, verify_quorum_certificate,
  verify_commit_quorum_certificate_against_current_proposal, emit_commit_event, send,
  current_slot_prepare_is_present, is_joining,
}
use hyle.Consensus.Follower.{on_confirm, confirm_as, on_commit, commit_as, commit_current}
use hyle.Consensus.Stable.{Stable, committing}
use hyle.Consensus.Stable.Rounds.{advance_round-Keeps}

-- `o` is among what was sent.
abbrev pub IsSent : Output → List Output → Type 0
IsSent o [] = ⊥
IsSent o (p ∷ ps) = (p ≡ o) ⊎ IsSent o ps

IsSent-append : (o : Output) (os : List Output) (p : Output) → IsSent o os → IsSent o (os ++ p ∷ [])
IsSent-append o [] p h = elim h [ ]
IsSent-append o (q ∷ os) p (inl e) = inl e
IsSent-append o (q ∷ os) p (inr h) = inr (IsSent-append o os p h)

IsSent-last : (o : Output) (os : List Output) → IsSent o (os ++ o ∷ [])
IsSent-last o [] = inl refl
IsSent-last o (q ∷ os) = inr (IsSent-last o os)

module _ (env : Env) where
  abbrev pub HasSent : Output → Consensus → Type 0
  HasSent o s = IsSent o s.sent

  HasSent-Stable : (o : Output) → Stable env (HasSent o)
  HasSent-Stable o = record {
    sends = λ s p h k. IsSent-append o s.sent p k;
    tags = λ s t p. p;
    leads = λ s l p. p;
    follows = λ s f p. p;
    requests = λ s rs p. p;
    schedules = λ s t p. p;
    sees = λ s slot qc p. p;
    candidates = λ s vs p. p;
    proposals = λ s cp p. p;
    stakes = λ s st p. p;
    views = λ s p. p;
    slots = λ s p. p;
    joins = λ s h p. p;
    commits = λ s qc e p. IsSent-append o s.sent _ p;
    forces = λ s e p. IsSent-append o s.sent _ p;
  }

  -- A certificate that is accepted for the current proposal commits it.
  commit_current-sends :
      (qc : CommitQc) (s : Consensus)
      → check_quorum_certificate env s.staking
          (confirm_ack_content (env.hashed s.current_proposal))
          qc
        ≡ ok tt
      → HasSent
          (commit_consensus_proposal s.staking s.current_proposal qc)
          (commit_current env qc s).1
  unfolding commit_current verify_commit_quorum_certificate_against_current_proposal
      verify_quorum_certificate emit_commit_event send ◌>>=◌
  commit_current-sends qc s e = rw e (
      (advance_round-Keeps
          (HasSent-Stable (commit_consensus_proposal s.staking s.current_proposal qc))
          (commit_qc qc)).at
        (committing s qc) (IsSent-last _ s.sent))

  -- A follower that accepts a Confirm has checked the votes' certificate.
  confirm_as-checks :
      (qc : PrepareQc) (s : Consensus)
      → (confirm_as env follower_tag qc (env.hashed s.current_proposal) s).0 ≡ ok tt
      → check_quorum_certificate env s.staking
          (prepare_vote_content (env.hashed s.current_proposal))
          qc
        ≡ ok tt
  unfolding confirm_as verify_quorum_certificate ◌>>=◌
  confirm_as-checks qc s e =
      elim (Result-cases (
        check_quorum_certificate env s.staking
          (prepare_vote_content (env.hashed s.current_proposal)) qc)) [
            | inl (done, f) ↦ f
            | inr (x, f) ↦ absurd (ground (arith, e, f, key_refl (env.hashed s.current_proposal)))
          ]

  -- A marker adds no byte.
  check-encode :
      (s : Consensus) (first second : SignedContent) (qc : PrepareQc)
      → env.encode first ≡ env.encode second
      → check_quorum_certificate env s.staking first qc
        ≡ check_quorum_certificate env s.staking second qc
  unfolding check_quorum_certificate
  check-encode s first second qc e = rw (e, check_quorum_certificate) refl

  commit_branch :
      (qc : CommitQc) (hash : ConsensusProposalHash) (s : Consensus) (present : Bool) (t : StateTag)
      → present ≡ true
      → t ≡ follower_tag
      → (if not (is_joining t) && not present then pure tt else commit_as env t qc hash) s
        ≡ commit_as env follower_tag qc hash s
  commit_branch qc hash s true follower_tag p q = refl
  commit_branch qc hash s true joining p q = cc
  commit_branch qc hash s true leader_tag p q = cc
  commit_branch qc hash s false t p q = cc

  same_hash_branch :
      (qc : CommitQc) (s : Consensus) (same : Bool)
      → same ≡ true
      → (if not same then pure tt else commit_current env qc) s ≡ commit_current env qc s
  same_hash_branch qc s true p = refl
  same_hash_branch qc s false p = cc

  -- Where a vote and an acknowledgement of a proposal have the same bytes, a follower that accepts a
  -- certificate of votes as a Confirm commits the proposal when it gets that certificate as a Commit.
  pub votes_commit :
      (qc : PrepareQc) (s : Consensus)
      → env.encode (prepare_vote_content (env.hashed s.current_proposal))
        ≡ env.encode (confirm_ack_content (env.hashed s.current_proposal))
      → s.state_tag ≡ follower_tag
      → current_slot_prepare_is_present s ≡ true
      → (on_confirm env qc (env.hashed s.current_proposal) s).0 ≡ ok tt
      → HasSent
          (commit_consensus_proposal s.staking s.current_proposal qc)
          (on_commit env qc (env.hashed s.current_proposal) s).1
  unfolding on_confirm on_commit commit_as reading
  votes_commit qc s same tag present e =
      let confirmed =
        ap (λ (t : StateTag). (confirm_as env t qc (env.hashed s.current_proposal) s).0) (sym tag)
        ∙ e in
      let checked = sym (check-encode s _ _ qc same) ∙ confirm_as-checks qc s confirmed in
      let commits =
        commit_branch qc (env.hashed s.current_proposal) s (current_slot_prepare_is_present s)
          s.state_tag present tag
        ∙ same_hash_branch qc s (env.hashed s.current_proposal == env.hashed s.current_proposal)
            (key_refl (env.hashed s.current_proposal)) in
      subst (λ r. HasSent (commit_consensus_proposal s.staking s.current_proposal qc) r.1)
        (sym commits) (commit_current-sends qc s checked)
