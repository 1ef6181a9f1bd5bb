-- ===== src/Proposals.antt =====
-- What the nodes sign and agree on: crates/hyle-model/src/node/consensus.rs, crypto.rs, mempool.rs and
-- staking.rs. A newtype is what it wraps; a lane id is the key of the validator that owns it.
use hyle.Prelude.{ℕ, String, Bool, true, false, ◌&&◌, List, [], ◌∷◌, nat_eq}
use hyle.Prelude.Key.{◌==◌, string_key}
use hyle.Model.{Bytes, ValidatorPublicKey, bytes_key}

abbrev pub Slot : Type 0
Slot = ℕ

abbrev pub View : Type 0
View = ℕ

abbrev pub TimestampMs : Type 0
TimestampMs = ℕ

abbrev pub ConsensusProposalHash : Type 0
ConsensusProposalHash = String

abbrev pub DataProposalHash : Type 0
DataProposalHash = String

abbrev pub LaneId : Type 0
LaneId = ValidatorPublicKey

abbrev pub LaneBytesSize : Type 0
LaneBytesSize = ℕ

pub record SignedByValidator (T : Type 0) : Type 0 where
  pub msg : T
  pub signature : Bytes
  pub validator : ValidatorPublicKey

pub record AggregateSignature : Type 0 where
  pub signature : Bytes
  pub validators : List ValidatorPublicKey

abbrev pub PoDa : Type 0
PoDa = AggregateSignature

-- A lane, its data proposal, its size and the signatures.
abbrev pub Cut : Type 0
Cut = List (LaneId × DataProposalHash × LaneBytesSize × PoDa)

pub record ValidatorCandidacy : Type 0 where
  pub peer_address : String

pub data ConsensusStakingAction : Type 0 where
  bonds : SignedByValidator ValidatorCandidacy → ConsensusStakingAction
  pays_fees_for_dadi : LaneId → LaneBytesSize → ConsensusStakingAction

pub record ConsensusProposal : Type 0 where
  pub slot : Slot
  pub parent_hash : ConsensusProposalHash
  pub cut : Cut
  pub staking_actions : List ConsensusStakingAction
  pub timestamp : TimestampMs

-- `ConsensusProposal::default()`
abbrev pub default_proposal : ConsensusProposal
default_proposal = record {
  slot = 0;
  parent_hash = "";
  cut = [];
  staking_actions = [];
  timestamp = 0;
}

-- The derived equalities.
unfoldable pub list_eq {ℓ} : {A : Type ℓ} → (A → A → Bool) → List A → List A → Bool
list_eq eq [] [] = true
list_eq eq (a ∷ as') (b ∷ bs) = eq a b && list_eq eq as' bs
list_eq eq _ _ = false

abbrev pub signed_eq :
    {T : Type 0} → (T → T → Bool) → SignedByValidator T → SignedByValidator T → Bool
signed_eq eq a b = eq a.msg b.msg && (a.signature == b.signature && a.validator == b.validator)

unfoldable pub aggregate_eq : AggregateSignature → AggregateSignature → Bool
unfolding list_eq
aggregate_eq a b = a.signature == b.signature && list_eq ◌==◌ a.validators b.validators

abbrev action_eq : ConsensusStakingAction → ConsensusStakingAction → Bool
action_eq (bonds a) (bonds b) = signed_eq (λ x y. x.peer_address == y.peer_address) a b
action_eq (pays_fees_for_dadi l n) (pays_fees_for_dadi k m) = l == k && nat_eq n m
action_eq _ _ = false

abbrev entry_eq :
    LaneId × DataProposalHash × LaneBytesSize × PoDa
    → LaneId × DataProposalHash × LaneBytesSize × PoDa
    → Bool
entry_eq a b = a.0 == b.0 && (a.1 == b.1 && (nat_eq a.2 b.2 && aggregate_eq a.3 b.3))

unfoldable pub proposal_eq : ConsensusProposal → ConsensusProposal → Bool
unfolding list_eq aggregate_eq
proposal_eq a b =
    nat_eq a.slot b.slot
    && (a.parent_hash == b.parent_hash
        && (list_eq entry_eq a.cut b.cut
            && (list_eq action_eq a.staking_actions b.staking_actions
                && nat_eq a.timestamp b.timestamp)))

-- `Cut == Cut`
unfoldable pub cut_eq : Cut → Cut → Bool
unfolding list_eq aggregate_eq
cut_eq = list_eq entry_eq
