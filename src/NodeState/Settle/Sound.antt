-- ===== src/NodeState/Settle/Sound.antt =====
-- The search settles a transaction only as the rules allow, and never counts a blob twice.
use hyle.Prelude.{
  ℕ, suc, ◌+◌, ◌≡◌, subst, inl, inr, false, ◌⊎◌, List, [], ◌∷◌, ◌++◌, length, arith, Bool-cases,
  Result-cases,
}
use hyle.Prelude.Key.{◌==◌, string_key}
use hyle.Model.{Codec, HyleOutput, ProgramId, UnsettledBlobMetadata}
use hyle.NodeState.Changes.{Contracts, ContractChanges}
use hyle.NodeState.Tld.{handle_blob_for_hyle_tld}
use hyle.NodeState.Proof.{process_proof}
use hyle.NodeState.Settle.{
  SettlementResult, SettleEvent, not_ready, failed, settled, Continue, Outcome, or_else, try_proofs,
  settle_hyle, settle_blobs,
}
use hyle.NodeState.Settle.Relation.{
  At, at_head, at_tail, Settles-length, Settles, settled_all, by_node, by_proof,
}

or_else-settled :
    (o : Outcome) (next : List SettleEvent → Outcome) (r : SettlementResult)
    → (or_else o next).1 ≡ settled r
    → (o.1 ≡ settled r) ⊎ ((next o.0).1 ≡ settled r)
or_else-settled (events, not_ready) next r e = inr e
or_else-settled (events, failed) next r e = inl e
or_else-settled (events, settled x) next r e = inl e

module _ (codec : Codec) (contracts : Contracts) where
  -- What is asked of the settlement of the blobs that follow.
  abbrev IsSound : List UnsettledBlobMetadata → Continue → Type 0
  IsSound blobs continue =
      (changes : ContractChanges) (indices : List ℕ) (events : List SettleEvent)
      (r : SettlementResult)
      → (continue changes indices events).1 ≡ settled r
      → Settles codec contracts blobs changes indices r

  -- The proofs from the `i`-th on stand in the blob's list where the loop says.
  abbrev IsTail : UnsettledBlobMetadata → ℕ → List (ProgramId × HyleOutput) → Type 0
  IsTail blob i proofs =
      (p : ProgramId × HyleOutput) (j k : ℕ)
      → At p j proofs
      → k ≡ i + j
      → At p k blob.possible_proofs

  try_proofs-IsSound :
      (blobs : List UnsettledBlobMetadata) (continue : Continue)
      → IsSound blobs continue
      → (changes : ContractChanges) (indices : List ℕ) (blob : UnsettledBlobMetadata) (i : ℕ)
        (proofs : List (ProgramId × HyleOutput)) (events : List SettleEvent) (r : SettlementResult)
      → blob.blob.contract_name == "hyle" ≡ false
      → IsTail blob i proofs
      → (try_proofs codec contracts continue changes indices blob i proofs events).1 ≡ settled r
      → Settles codec contracts (blob ∷ blobs) changes indices r
  unfolding try_proofs
  try_proofs-IsSound blobs continue s changes indices blob i [] events r n t e = ground arith
  try_proofs-IsSound blobs continue s changes indices blob i (proof ∷ proofs) events r n t e =
      let name = blob.blob.contract_name in
      let later : IsTail blob (i + 1) proofs =
        λ p j k at q. t p (suc j) k (at_tail at) (omega arith) in
      elim (Result-cases (process_proof codec contracts changes name proof blob)) [
        | inr (x, f) ↦
            try_proofs-IsSound blobs continue s changes indices blob (i + 1) proofs _ r n later
              (rw (f, try_proofs) at e)
        | inl (changes', f) ↦ elim (Bool-cases proof.1.success) [
          | inl won ↦
              elim (or_else-settled (continue changes' (indices ++ i ∷ []) events)
                (try_proofs codec contracts continue changes indices blob (i + 1) proofs) r
                (rw (f, won, try_proofs) at e)) [
                  | inl here ↦
                      by_proof n (t proof 0 i at_head (omega arith)) f won
                        (s changes' (indices ++ i ∷ []) events r here)
                  | inr there ↦
                      try_proofs-IsSound blobs continue s changes indices blob (i + 1) proofs _ r n
                        later there
                ]
          | inr lost ↦ absurd (ground (arith, rw (f, lost, try_proofs) at e))
        ]
      ]

  settle_blobs-IsSound :
      (blobs : List UnsettledBlobMetadata) → IsSound blobs (settle_blobs codec contracts blobs)
  unfolding settle_blobs
  settle_blobs-IsSound [] changes indices events r e =
      subst (Settles codec contracts [] changes indices) (ground arith) settled_all
  settle_blobs-IsSound (blob ∷ blobs) changes indices events r e =
      let ih = settle_blobs-IsSound blobs in
      elim (Bool-cases (blob.blob.contract_name == "hyle")) [
        | inl hyle ↦
            elim (Result-cases (handle_blob_for_hyle_tld codec contracts changes blob.blob)) [
              | inl (changes', f) ↦ by_node hyle f (
                  ih changes' (indices ++ 0 ∷ []) events r
                    (rw (hyle, settle_blobs, f, settle_hyle) at e))
              | inr (x, f) ↦ absurd (ground arith)
            ]
        | inr other ↦
            try_proofs-IsSound blobs (settle_blobs codec contracts blobs) ih changes indices blob 0
              blob.possible_proofs events r other
              (λ p j k at q. subst (λ x. At p x blob.possible_proofs) (omega arith) at)
              (rw (other, settle_blobs) at e)
      ]

  -- A transaction is settled as successful only by proofs that hold one after the other, each blob
  -- with one, and one index is reported for each blob.
  pub settle_blobs_sound :
      (blobs : List UnsettledBlobMetadata) (changes : ContractChanges) (events : List SettleEvent)
      (r : SettlementResult)
      → (settle_blobs codec contracts blobs changes [] events).1 ≡ settled r
      → Settles codec contracts blobs changes [] r
        × (length r.blob_proof_output_indices ≡ length blobs)
  settle_blobs_sound blobs changes events r e =
      let s = settle_blobs-IsSound blobs changes [] events r e in
      (s, omega (arith, Settles-length codec contracts s))
