-- ===== src/Consensus/Stable.antt =====
-- What a property of the consensus must withstand to be kept by every handler: one field for each kind
-- of update in src/consensus.rs and its roles. The modules below carry it through the methods.
pub mod Rounds
pub mod Timeouts
pub mod Tickets
pub mod Followers
pub mod Leaders
pub mod Handlers
use hyle.Prelude.{
  ◌≡◌, refl, ℕ, ◌<◌, Bool, true, false, Option, none, some, List, [], ◌∷◌, ◌++◌, any, Result, ok,
  err,
}
use hyle.Prelude.Exec.{Done, Keeps}
use hyle.Prelude.Word.{add_u64}
use hyle.Contracts.Staking.{Staking}
use hyle.Proposals.{Slot, SignedByValidator, ValidatorCandidacy, ConsensusProposal}
use hyle.Consensus.Messages.{confirm_ack_content, CommitQc, PrepareQc, ConsensusTimeout}
use hyle.Consensus.{
  Env, Consensus, LeaderState, FollowerState, TimeoutState, StateTag, follower_tag, Output,
  commit_consensus_proposal,
}
use hyle.Consensus.Round.{check_quorum_certificate}
use hyle.Consensus.Timeout.{update_highest_seen_prepare_qc}
use hyle.Consensus.Follower.{current_proposal_changes_voting_power, empty_certificate}

abbrev pub is_commit : Output → Bool
is_commit (commit_consensus_proposal staking proposal qc) = true
is_commit _ = false

abbrev pub sending : Consensus → Output → Consensus
sending s o = record s { sent = s.sent ++ o ∷ [] }

abbrev pub committing : Consensus → CommitQc → Consensus
committing s qc = sending s (commit_consensus_proposal s.staking s.current_proposal qc)

pub record Stable (env : Env) (P : Consensus → Type 0) : Type 0 where
  pub sends : (s : Consensus) (o : Output) → is_commit o ≡ false → P s → P (sending s o)
  pub tags : (s : Consensus) (t : StateTag) → P s → P (record s { state_tag = t })
  pub leads : (s : Consensus) (l : LeaderState) → P s → P (record s { leader = l })
  pub follows : (s : Consensus) (f : FollowerState) → P s → P (record s { follower = f })
  pub requests :
      (s : Consensus) (rs : List ConsensusTimeout)
      → P s
      → P (record s { timeouts = record s.timeouts { requests = rs } })
  pub schedules :
      (s : Consensus) (t : TimeoutState)
      → P s
      → P (record s { timeouts = record s.timeouts { timeout_state = t } })
  pub sees :
      (s : Consensus) (slot : Slot) (qc : PrepareQc)
      → P s
      → P (record s { timeouts = (update_highest_seen_prepare_qc s.timeouts slot qc).0 })
  pub candidates :
      (s : Consensus) (vs : List (SignedByValidator ValidatorCandidacy))
      → P s
      → P (record s { validator_candidates = vs })
  pub proposals :
      (s : Consensus) (p : ConsensusProposal) → P s → P (record s { current_proposal = p })
  pub stakes : (s : Consensus) (st : Staking) → P s → P (record s { staking = st })
  pub views : (s : Consensus) → P s → P (record s { view = add_u64 s.view 1 })
  pub slots :
      (s : Consensus)
      → P s
      → P (record s {
        slot = add_u64 s.slot 1;
        view = 0;
        parent_hash = env.hashed s.current_proposal;
        parent_timestamp = s.current_proposal.timestamp;
        parent_cut = s.current_proposal.cut;
      })
  pub joins :
      (s : Consensus)
      → s.slot < s.current_proposal.slot
      → P s
      → P (record s { slot = s.current_proposal.slot; view = 0; state_tag = follower_tag })
  pub commits :
      (s : Consensus) (qc : CommitQc)
      → check_quorum_certificate env s.staking
          (confirm_ack_content (env.hashed s.current_proposal))
          qc
        ≡ ok tt
      → P s
      → P (committing s qc)
  pub forces :
      (s : Consensus)
      → current_proposal_changes_voting_power s ≡ false
      → P s
      → P (committing s empty_certificate)
