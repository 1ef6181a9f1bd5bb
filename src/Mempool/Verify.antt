-- ===== src/Mempool/Verify.antt =====
-- What a validator checks of a data proposal before it votes: `process_data_proposal` of
-- src/mempool/verify_tx.rs, in a task beside the main loop.
pub mod Proven
use hyle.Prelude.{
  ℕ, Bool, true, false, not, ◌&&◌, ◌||◌, Option, none, some, List, [], ◌∷◌, ◌++◌, map,
  if◌then◌else◌, nat_eq, length,
}
use hyle.Prelude.Key.{◌==◌, string_key}
use hyle.Prelude.Map.{lookup}
use hyle.Model.{
  bytes_key, Blob, Codec, ContractName, Verifier, ProgramId, HyleOutput, BlobProofOutput,
  BlobTransaction, ProofTransaction, VerifiedProofTransaction, TransactionData, blob_transaction,
  proof_transaction, verified_proof_transaction,
}
use hyle.Mempool.{DataProposal, KnownContracts, DataProposalVerdict, vote, refuse, MempoolEnv}
use hyle.Mempool.Outputs.{hyle_output_eq}

-- `any` over the zip of the outputs and what the transaction says they are.
unfoldable pub any_differs : List HyleOutput → List BlobProofOutput → Bool
unfolding hyle_output_eq
any_differs [] blobs = false
any_differs (o ∷ os) [] = false
any_differs (o ∷ os) (b ∷ bs) = not (hyle_output_eq o b.hyle_output) || any_differs os bs

-- `all` over the zip of the program ids, the outputs and what the transaction says they are.
unfoldable pub data_matches : List ProgramId → List HyleOutput → List BlobProofOutput → Bool
unfolding hyle_output_eq
data_matches (i ∷ is) (o ∷ os) (b ∷ bs) =
    (hyle_output_eq o b.hyle_output && i == b.program_id) && data_matches is os bs
data_matches _ _ _ = true

module _ (env : MempoolEnv) where
  -- The first blob that registers the contract.
  unfoldable pub registered_by : ContractName → List Blob → Option (Verifier × ProgramId)
  registered_by name [] = none
  registered_by name (blob ∷ blobs) =
      let rest = registered_by name blobs in
      if blob.contract_name == "hyle"
      then elim (env.codec.register blob.blob_data) [
        | none ↦ rest
        | some action ↦
            if action.contract_name == name then some (action.verifier, action.program_id) else rest
      ]
      else rest

  -- `find_contract`, in the transactions before the proof's.
  unfoldable pub find_contract : List TransactionData → ContractName → Option (Verifier × ProgramId)
  unfolding registered_by
  find_contract [] name = none
  find_contract (blob_transaction tx ∷ txs) name =
      let rest = find_contract txs name in
      elim (registered_by name tx.blobs) [ none ↦ rest | some found ↦ some found ]
  find_contract (proof_transaction tx ∷ txs) name = find_contract txs name
  find_contract (verified_proof_transaction tx ∷ txs) name = find_contract txs name

  -- The contract that the proof is checked against.
  unfoldable pub contract_of :
      KnownContracts → List TransactionData → ContractName → Option (Verifier × ProgramId)
  unfolding find_contract
  contract_of known before name = elim (lookup name known) [
    | some found ↦ some found
    | none ↦ find_contract before name
  ]

  unfoldable pub accepts_recursive :
      VerifiedProofTransaction → Option (List ProgramId × List HyleOutput) → Bool
  unfolding data_matches
  accepts_recursive tx none = false
  accepts_recursive tx (some (ids, outputs)) = not (
      not (nat_eq (length ids) (length tx.proven_blobs))
      || not (data_matches ids outputs tx.proven_blobs))

  unfoldable pub accepts_outputs : VerifiedProofTransaction → Option (List HyleOutput) → Bool
  unfolding any_differs
  accepts_outputs tx none = false
  accepts_outputs tx (some outputs) = not (
      not (nat_eq (length outputs) (length tx.proven_blobs)) && any_differs outputs tx.proven_blobs)

  unfoldable pub accepts_proof :
      KnownContracts → List TransactionData → VerifiedProofTransaction → Bool
  unfolding contract_of accepts_recursive accepts_outputs
  accepts_proof known before tx = elim tx.proof [
    | none ↦ false
    | some proof ↦ elim (contract_of known before tx.contract_name) [
      | none ↦ false
      | some contract ↦
          if tx.contract_name == "risc0-recursion"
          then accepts_recursive tx (env.verify_recursive_proof proof contract.0 contract.1)
          else accepts_outputs tx (env.verify_proof proof contract.0 contract.1)
    ]
  ]

  unfoldable pub accepts_tx : KnownContracts → List TransactionData → TransactionData → Bool
  unfolding accepts_proof
  accepts_tx known before (blob_transaction tx) = true
  accepts_tx known before (proof_transaction tx) = false
  accepts_tx known before (verified_proof_transaction tx) = accepts_proof known before tx

  unfoldable pub accepts_txs : KnownContracts → List TransactionData → List TransactionData → Bool
  unfolding accepts_tx
  accepts_txs known before [] = true
  accepts_txs known before (tx ∷ txs) =
      accepts_tx known before tx && accepts_txs known (before ++ tx ∷ []) txs

  -- `remove_proofs`, which no `proof_transaction` reaches.
  unfoldable pub remove_proof : TransactionData → TransactionData
  remove_proof (verified_proof_transaction tx) =
      verified_proof_transaction (record tx { proof = none })
  remove_proof (blob_transaction tx) = blob_transaction tx
  remove_proof (proof_transaction tx) = proof_transaction tx

  unfoldable pub remove_proofs : DataProposal → DataProposal
  unfolding remove_proof
  remove_proofs dp = record dp { txs = map remove_proof dp.txs }

  unfoldable pub process_data_proposal :
      KnownContracts → DataProposal → DataProposalVerdict × DataProposal
  unfolding accepts_txs remove_proofs
  process_data_proposal known dp =
      if accepts_txs known [] dp.txs then (vote, remove_proofs dp) else (refuse, dp)
