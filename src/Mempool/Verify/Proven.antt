-- ===== src/Mempool/Verify/Proven.antt =====
-- What a vote for a data proposal says of its proofs: `process_data_proposal` of
-- src/mempool/verify_tx.rs.
use hyle.Prelude.{
  ◌≡◌, true, false, Option, some, List, [], ◌∷◌, ◌++◌, ◌⊎◌, nat_eq_iff, length, arith,
}
use hyle.Prelude.Key.{◌==◌, string_key}
use hyle.Model.{
  Bytes, Verifier, ProgramId, HyleOutput, VerifiedProofTransaction, TransactionData,
  blob_transaction, proof_transaction, verified_proof_transaction,
}
use hyle.Proposals.{DataProposalHash}
use hyle.Mempool.{KnownContracts, vote, MempoolEnv}
use hyle.Mempool.Verify.{
  data_matches, contract_of, accepts_outputs, accepts_proof, accepts_tx, accepts_txs,
  process_data_proposal,
}

module _ (env : MempoolEnv) (known : KnownContracts) where
  -- A recursive proof holds, and its program ids and outputs are those that the transaction claims.
  abbrev IsRecursion : VerifiedProofTransaction → Bytes → Verifier × ProgramId → Type 0
  IsRecursion tx proof contract =
      (ids : List ProgramId) × (outputs : List HyleOutput) × (env.verify_recursive_proof proof
          contract.0 contract.1
        ≡ some (ids, outputs))
      × (length ids ≡ length tx.proven_blobs)
      × (data_matches ids outputs tx.proven_blobs ≡ true)

  -- The transaction has a proof that holds for its contract, which is known or registered before it.
  abbrev IsProven : List TransactionData → VerifiedProofTransaction → Type 0
  IsProven before tx =
      (proof : Bytes) × (contract : Verifier × ProgramId) × (tx.proof ≡ some proof)
      × (contract_of env known before tx.contract_name ≡ some contract)
      × (((tx.contract_name == "risc0-recursion") ≡ true) × IsRecursion tx proof contract
          ⊎ ((outputs : List HyleOutput) × (env.verify_proof proof contract.0 contract.1
                ≡ some outputs)))

  abbrev pub AllProven : List TransactionData → List TransactionData → Type 0
  AllProven before [] = Unit {0}
  AllProven before (blob_transaction tx ∷ txs) = AllProven (before ++ blob_transaction tx ∷ []) txs
  AllProven before (proof_transaction tx ∷ txs) = ⊥
  AllProven before (verified_proof_transaction tx ∷ txs) =
      IsProven before tx × AllProven (before ++ verified_proof_transaction tx ∷ []) txs

  -- A proof that is not recursive and holds, with as many outputs as the transaction claims, is voted
  -- for whatever outputs the transaction claims.
  pub claims_unchecked :
      (parent : Option DataProposalHash) (tx : VerifiedProofTransaction) (proof : Bytes)
      (contract : Verifier × ProgramId) (outputs : List HyleOutput)
      → tx.proof ≡ some proof
      → contract_of env known [] tx.contract_name ≡ some contract
      → (tx.contract_name == "risc0-recursion") ≡ false
      → env.verify_proof proof contract.0 contract.1 ≡ some outputs
      → length outputs ≡ length tx.proven_blobs
      → (process_data_proposal env known (record {
        parent_data_proposal_hash = parent;
        txs = verified_proof_transaction tx ∷ [];
      })).0
        ≡ vote
  unfolding process_data_proposal accepts_txs accepts_tx accepts_proof accepts_outputs
  claims_unchecked parent tx proof contract outputs p c r v same =
      ground (arith, p, c, r, v, (nat_eq_iff (length outputs) (length tx.proven_blobs)).1 same)
