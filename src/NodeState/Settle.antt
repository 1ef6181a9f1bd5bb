-- ===== src/NodeState/Settle.antt =====
-- crates/hyle-modules/src/node_state.rs: `settle_blobs_recursively`. A recursion on the blobs with
-- a loop over the proofs of each; the log of events is passed along. The messages of the log are
-- kept as data, not as the texts that the source formats.
pub mod Relation
pub mod Sound
pub mod Complete
use hyle.Prelude.{
  ℕ, ◌+◌, ◌≡◌, Bool, true, false, not, Option, none, some, List, [], ◌∷◌, ◌++◌, if◌then◌else◌,
  Result, ok, err,
}
use hyle.Prelude.Key.{◌==◌, string_key}
use hyle.Model.{Bytes, Codec, ContractName, HyleOutput, ProgramId, UnsettledBlobMetadata}
use hyle.NodeState.Changes.{Contracts, ContractChanges, Error}
use hyle.NodeState.Tld.{handle_blob_for_hyle_tld}
use hyle.NodeState.Proof.{process_proof}

pub record SettlementResult : Type 0 where
  pub contract_changes : ContractChanges
  pub blob_proof_output_indices : List ℕ

-- The texts of `TransactionStateEvent::SettleEvent`.
pub data SettleEvent : Type 0 where
  hyle_failed : Error → SettleEvent
  proof_rejected : ℕ → ContractName → Error → SettleEvent
  proven_failure : ℕ → Bytes → SettleEvent

-- `Option<Result<SettlementResult, ()>>`: not ready, or settled as successful or as failed.
pub data Verdict : Type 0 where
  not_ready failed : Verdict
  settled : SettlementResult → Verdict

abbrev pub Outcome : Type 0
Outcome = List SettleEvent × Verdict

-- What settles the blobs that follow.
abbrev pub Continue : Type 0
Continue = ContractChanges → List ℕ → List SettleEvent → Outcome

abbrev pub or_else : Outcome → (List SettleEvent → Outcome) → Outcome
or_else (events, not_ready) next = next events
or_else (events, failed) next = (events, failed)
or_else (events, settled r) next = (events, settled r)

module _ (codec : Codec) (contracts : Contracts) where
  -- The loop over `possible_proofs`, from the `i`-th on.
  unfoldable pub try_proofs :
      Continue
      → ContractChanges
      → List ℕ
      → UnsettledBlobMetadata
      → ℕ
      → List (ProgramId × HyleOutput)
      → List SettleEvent
      → Outcome
  try_proofs continue changes indices blob i [] events = (events, not_ready)
  try_proofs continue changes indices blob i (proof ∷ proofs) events =
      let name = blob.blob.contract_name in
      elim (process_proof codec contracts changes name proof blob) [
        | err e ↦
            try_proofs continue changes indices blob (i + 1) proofs
              (events ++ proof_rejected i name e ∷ [])
        | ok changes' ↦ elim (proof.1.success) [
          | false ↦ (events ++ proven_failure i proof.1.program_outputs ∷ [], failed)
          | true ↦
              or_else (continue changes' (indices ++ i ∷ []) events)
                (try_proofs continue changes indices blob (i + 1) proofs)
        ]
      ]

  -- The case of a blob of the `hyle` contract.
  unfoldable pub settle_hyle :
      Continue → ContractChanges → List ℕ → UnsettledBlobMetadata → List SettleEvent → Outcome
  settle_hyle continue changes indices blob events =
      elim (handle_blob_for_hyle_tld codec contracts changes blob.blob) [
        | ok changes' ↦ continue changes' (indices ++ 0 ∷ []) events
        | err e ↦ (events ++ hyle_failed e ∷ [], failed)
      ]

  unfoldable pub settle_blobs : List UnsettledBlobMetadata → Continue
  unfolding try_proofs settle_hyle
  settle_blobs [] changes indices events =
      (events, settled (record { contract_changes = changes; blob_proof_output_indices = indices }))
  settle_blobs (blob ∷ blobs) changes indices events =
      if blob.blob.contract_name == "hyle"
      then settle_hyle (settle_blobs blobs) changes indices blob events
      else try_proofs (settle_blobs blobs) changes indices blob 0 blob.possible_proofs events
