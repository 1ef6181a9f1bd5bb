-- ===== src/Consensus/Messages.antt =====
-- What the consensus of two nodes exchanges: src/consensus/network.rs. The markers have no content: a
-- certificate is its aggregate signature, and `SignedContent` is what is signed.
use hyle.Prelude.{Bool, false, ◌&&◌, nat_eq}
use hyle.Prelude.Key.{◌==◌, string_key}
use hyle.Model.{ValidatorPublicKey}
use hyle.Proposals.{
  Slot, View, ConsensusProposalHash, DataProposalHash, LaneBytesSize, SignedByValidator,
  AggregateSignature, ValidatorCandidacy, ConsensusProposal, signed_eq, aggregate_eq, proposal_eq,
}

-- What borsh encodes and a validator signs, one constructor for each type of message.
pub data SignedContent : Type 0 where
  prepare_vote_content : ConsensusProposalHash → SignedContent
  confirm_ack_content : ConsensusProposalHash → SignedContent
  timeout_content : Slot → View → ConsensusProposalHash → SignedContent
  poda_content : DataProposalHash → LaneBytesSize → SignedContent
  candidacy_content : ValidatorCandidacy → SignedContent

abbrev pub PrepareQc : Type 0
PrepareQc = AggregateSignature

abbrev pub CommitQc : Type 0
CommitQc = AggregateSignature

abbrev pub TimeoutQc : Type 0
TimeoutQc = AggregateSignature

abbrev pub PrepareVote : Type 0
PrepareVote = SignedByValidator ConsensusProposalHash

abbrev pub ConfirmAck : Type 0
ConfirmAck = SignedByValidator ConsensusProposalHash

-- Slot, view and parent hash.
abbrev pub TimeoutBody : Type 0
TimeoutBody = Slot × View × ConsensusProposalHash

abbrev pub SignedTimeout : Type 0
SignedTimeout = SignedByValidator TimeoutBody

pub data TcKind : Type 0 where
  nil_certificate : TcKind
  prepare_certificate : PrepareQc → ConsensusProposal → TcKind

pub data TimeoutKind : Type 0 where
  nil_proposal : SignedTimeout → TimeoutKind
  with_prepare : PrepareQc → ConsensusProposal → TimeoutKind

abbrev pub ConsensusTimeout : Type 0
ConsensusTimeout = SignedTimeout × TimeoutKind

pub data Ticket : Type 0 where
  genesis_ticket forced_commit_qc : Ticket
  commit_qc : CommitQc → Ticket
  timeout_qc : TimeoutQc → TcKind → Ticket

abbrev pub Prepare : Type 0
Prepare = ValidatorPublicKey × ConsensusProposal × Ticket × View

pub data ConsensusNetMessage : Type 0 where
  prepare : ConsensusProposal → Ticket → View → ConsensusNetMessage
  prepare_vote : PrepareVote → ConsensusNetMessage
  confirm : PrepareQc → ConsensusProposalHash → ConsensusNetMessage
  confirm_ack : ConfirmAck → ConsensusNetMessage
  commit : CommitQc → ConsensusProposalHash → ConsensusNetMessage
  timeout : SignedTimeout → TimeoutKind → ConsensusNetMessage
  timeout_certificate : TimeoutQc → TcKind → Slot → View → ConsensusNetMessage
  validator_candidacy : SignedByValidator ValidatorCandidacy → ConsensusNetMessage
  sync_request : ConsensusProposalHash → ConsensusNetMessage
  sync_reply : Prepare → ConsensusNetMessage

-- The derived equalities.
abbrev pub vote_eq :
    SignedByValidator ConsensusProposalHash → SignedByValidator ConsensusProposalHash → Bool
vote_eq = signed_eq ◌==◌

abbrev pub signed_timeout_eq : SignedTimeout → SignedTimeout → Bool
signed_timeout_eq = signed_eq (λ a b. nat_eq a.0 b.0 && (nat_eq a.1 b.1 && a.2 == b.2))

abbrev kind_eq : TimeoutKind → TimeoutKind → Bool
kind_eq (nil_proposal a) (nil_proposal b) = signed_timeout_eq a b
kind_eq (with_prepare q p) (with_prepare r o) = aggregate_eq q r && proposal_eq p o
kind_eq _ _ = false

unfoldable pub timeout_eq : ConsensusTimeout → ConsensusTimeout → Bool
unfolding aggregate_eq proposal_eq
timeout_eq a b = signed_timeout_eq a.0 b.0 && kind_eq a.1 b.1
