-- ===== src/NodeState/Settle/Relation.antt =====
-- The settlements that the rules of the chain allow, with no order of search: every blob of the
-- transaction takes one proof that holds in the state that the blobs before it left.
use hyle.Prelude.{
  ℕ, suc, ◌+◌, ◌≡◌, true, false, List, [], ◌∷◌, ◌++◌, ok, err, length, length-append, arith,
}
use hyle.Prelude.Key.{◌==◌, string_key}
use hyle.Model.{Codec, HyleOutput, ProgramId, UnsettledBlobMetadata}
use hyle.NodeState.Changes.{Contracts, ContractChanges, Error}
use hyle.NodeState.Tld.{handle_blob_for_hyle_tld}
use hyle.NodeState.Proof.{process_proof}
use hyle.NodeState.Settle.{SettlementResult}

-- `proof` stands `i` places after the head.
pub data At {ℓ} {A : Type ℓ} (a : A) : ℕ → List A → Type ℓ where
  at_head : {as' : List A} → At a 0 (a ∷ as')
  at_tail : {i : ℕ} {b : A} {as' : List A} → At a i as' → At a (suc i) (b ∷ as')

module _ (codec : Codec) (contracts : Contracts) where
  pub data Settles
      : List UnsettledBlobMetadata → ContractChanges → List ℕ → SettlementResult → Type 0 where
    settled_all :
        {changes : ContractChanges} {indices : List ℕ}
        → Settles [] changes indices
            (record { contract_changes = changes; blob_proof_output_indices = indices })
    by_node :
        {blob : UnsettledBlobMetadata} {blobs : List UnsettledBlobMetadata}
        {changes changes' : ContractChanges} {indices : List ℕ} {r : SettlementResult}
        → blob.blob.contract_name == "hyle" ≡ true
        → handle_blob_for_hyle_tld codec contracts changes blob.blob ≡ ok changes'
        → Settles blobs changes' (indices ++ 0 ∷ []) r
        → Settles (blob ∷ blobs) changes indices r
    by_proof :
        {blob : UnsettledBlobMetadata} {blobs : List UnsettledBlobMetadata}
        {changes changes' : ContractChanges} {indices : List ℕ} {r : SettlementResult} {i : ℕ}
        {proof : ProgramId × HyleOutput}
        → blob.blob.contract_name == "hyle" ≡ false
        → At proof i blob.possible_proofs
        → process_proof codec contracts changes blob.blob.contract_name proof blob ≡ ok changes'
        → proof.1.success ≡ true
        → Settles blobs changes' (indices ++ i ∷ []) r
        → Settles (blob ∷ blobs) changes indices r

  -- A transaction may be settled as failed: after proofs that hold, a blob has a proof of failure
  -- that holds, or is refused by the node.
  pub data Fails : List UnsettledBlobMetadata → ContractChanges → Type 0 where
    refused_by_node :
        {blob : UnsettledBlobMetadata} {blobs : List UnsettledBlobMetadata}
        {changes : ContractChanges} {e : Error}
        → blob.blob.contract_name == "hyle" ≡ true
        → handle_blob_for_hyle_tld codec contracts changes blob.blob ≡ err e
        → Fails (blob ∷ blobs) changes
    proven_to_fail :
        {blob : UnsettledBlobMetadata} {blobs : List UnsettledBlobMetadata}
        {changes changes' : ContractChanges} {i : ℕ} {proof : ProgramId × HyleOutput}
        → blob.blob.contract_name == "hyle" ≡ false
        → At proof i blob.possible_proofs
        → process_proof codec contracts changes blob.blob.contract_name proof blob ≡ ok changes'
        → proof.1.success ≡ false
        → Fails (blob ∷ blobs) changes
    after_node :
        {blob : UnsettledBlobMetadata} {blobs : List UnsettledBlobMetadata}
        {changes changes' : ContractChanges}
        → blob.blob.contract_name == "hyle" ≡ true
        → handle_blob_for_hyle_tld codec contracts changes blob.blob ≡ ok changes'
        → Fails blobs changes'
        → Fails (blob ∷ blobs) changes
    after_proof :
        {blob : UnsettledBlobMetadata} {blobs : List UnsettledBlobMetadata}
        {changes changes' : ContractChanges} {i : ℕ} {proof : ProgramId × HyleOutput}
        → blob.blob.contract_name == "hyle" ≡ false
        → At proof i blob.possible_proofs
        → process_proof codec contracts changes blob.blob.contract_name proof blob ≡ ok changes'
        → proof.1.success ≡ true
        → Fails blobs changes'
        → Fails (blob ∷ blobs) changes

  -- One index for each blob.
  pub Settles-length :
      {blobs : List UnsettledBlobMetadata} {changes : ContractChanges} {indices : List ℕ}
      {r : SettlementResult}
      → Settles blobs changes indices r
      → length r.blob_proof_output_indices ≡ length indices + length blobs
  Settles-length settled_all = omega arith
  Settles-length (by_node {indices = ix} _ _ s) =
      omega (arith, Settles-length s, length-append ix (0 ∷ []))
  Settles-length (by_proof {indices = ix} {i = i} _ _ _ _ s) =
      omega (arith, Settles-length s, length-append ix (i ∷ []))
