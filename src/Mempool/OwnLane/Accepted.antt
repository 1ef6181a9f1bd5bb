-- ===== src/Mempool/OwnLane/Accepted.antt =====
-- A node's own transactions: src/mempool/own_lane.rs and what other nodes check of them,
-- src/mempool/verify_tx.rs.
use hyle.Prelude.{
  ◌≡◌, refl, sym, subst, ◌∙◌, ap, ℕ, suc, true, false, some, List, [], ◌∷◌, ◌++◌, map, Option-cases,
  Bool-cases, ok, inl, inr, is_empty, ltb, nat_eq, nat_eq_iff, length, arith,
}
use hyle.Prelude.Key.{◌==◌, string_key}
use hyle.Prelude.Map.{lookup}
use hyle.Model.{
  bytes_key, Verifier, ProgramId, TxHash, HyleOutput, BlobProofOutput, ProofTransaction,
  VerifiedProofTransaction, TransactionData, proof_transaction, verified_proof_transaction,
}
use hyle.Prelude.Word.{add_u64}
use hyle.Mempool.{DataProposal, KnownContracts, MempoolEnv, Mempool}
use hyle.Mempool.Storage.{get_lane_hash_tip}
use hyle.Mempool.Verify.{contract_of, accepts_outputs, accepts_proof, accepts_tx}
use hyle.Mempool.OwnLane.{
  take_txs, proven_outputs, check_proof, process_proof_tx, init_dp_preparation_if_pending,
}

length-proven_outputs :
    (f : HyleOutput → ProgramId) (outputs : List HyleOutput)
    → length (proven_outputs outputs (map f outputs)) ≡ length outputs
unfolding proven_outputs
length-proven_outputs f [] = refl
length-proven_outputs f (o ∷ os) = ap suc (length-proven_outputs f os)

abbrev pub transactions : List (TxHash × TransactionData) → List TransactionData
transactions waiting = map (λ (w : TxHash × TransactionData). w.1) waiting

take_txs-append :
    (size_of : TransactionData → ℕ) (size : ℕ) (txs : List (TxHash × TransactionData))
    → transactions txs ≡ (take_txs size_of size txs).0 ++ transactions (take_txs size_of size txs).1
unfolding take_txs
take_txs-append size_of size [] = refl
take_txs-append size_of size ((hash, tx) ∷ txs) = elim (Bool-cases (ltb size 40000000)) [
  | inl below ↦
      rw below (ap (λ ts. tx ∷ ts) (take_txs-append size_of (add_u64 size (size_of tx)) txs))
  | inr above ↦ rw above refl
]

take_txs-takes :
    (size_of : TransactionData → ℕ) (txs : List (TxHash × TransactionData))
    → is_empty txs ≡ false
    → is_empty (take_txs size_of 0 txs).0 ≡ false
unfolding take_txs
take_txs-takes size_of [] e = absurd (ground (arith, e))
take_txs-takes size_of ((hash, tx) ∷ txs) e = refl

module _ (env : MempoolEnv) where
  abbrev made : ProofTransaction → List BlobProofOutput → VerifiedProofTransaction
  made tx blobs = record {
    contract_name = tx.contract_name;
    proof = some tx.proof;
    proof_hash = env.proof_hash tx.proof;
    proof_size = env.estimate_size (proof_transaction tx);
    proven_blobs = blobs;
    is_recursive = tx.contract_name == "risc0-recursion";
  }

  made-IsAccepted :
      (known : KnownContracts) (before : List TransactionData) (tx : ProofTransaction)
      (contract : Verifier × ProgramId) (outputs : List HyleOutput) (blobs : List BlobProofOutput)
      → lookup tx.contract_name known ≡ some contract
      → env.verify_proof tx.proof contract.0 contract.1 ≡ some outputs
      → (tx.contract_name == "risc0-recursion") ≡ false
      → nat_eq (length outputs) (length blobs) ≡ true
      → accepts_tx env known before (verified_proof_transaction (made tx blobs)) ≡ true
  unfolding accepts_tx accepts_proof contract_of accepts_outputs
  made-IsAccepted known before tx contract outputs blobs c v plain same =
      ground (arith, c, v, plain, same)

  -- What a node makes of a proof that is not recursive is accepted by a node that knows the same
  -- contracts, whatever comes before it in the data proposal.
  pub processed-IsAccepted :
      (known : KnownContracts) (before : List TransactionData) (tx : ProofTransaction)
      (tx' : TransactionData)
      → process_proof_tx env known (proof_transaction tx) ≡ ok tx'
      → (tx.contract_name == "risc0-recursion") ≡ false
      → accepts_tx env known before tx' ≡ true
  unfolding process_proof_tx check_proof
  processed-IsAccepted known before tx tx' e plain =
      elim (Option-cases (lookup tx.contract_name known)) [
        | inl n ↦ absurd (ground (arith, e, n))
        | inr (contract, c) ↦
            elim (Option-cases (env.verify_proof tx.proof contract.0 contract.1)) [
              | inl n ↦ absurd (ground (arith, e, c, plain, n))
              | inr (outputs, v) ↦
                  let f : HyleOutput → ProgramId = λ o. contract.1 in
                  let blobs : List BlobProofOutput = proven_outputs outputs (map f outputs) in
                  let same : verified_proof_transaction (made tx blobs) ≡ tx' =
                    ground (arith, e, c, plain, v) in
                  subst (λ t. accepts_tx env known before t ≡ true) same
                    (made-IsAccepted known before tx contract outputs blobs c v plain (
                      (nat_eq_iff (length outputs) (length blobs)).1
                        (sym (length-proven_outputs f outputs))))
            ]
      ]

  -- A data proposal that is prepared has transactions, and those that waited: they are its own and,
  -- after them, the ones that still wait. Its parent is the tip of the node's lane.
  pub prepared_conserves :
      (s : Mempool) (dp : DataProposal)
      → (init_dp_preparation_if_pending env s).0 ≡ some dp
      → (transactions s.waiting_dissemination_txs
          ≡ dp.txs
            ++ transactions (init_dp_preparation_if_pending env s).1.waiting_dissemination_txs)
        × (is_empty dp.txs ≡ false)
        × (dp.parent_data_proposal_hash ≡ get_lane_hash_tip s.lanes env.validator_pubkey)
  unfolding init_dp_preparation_if_pending
  prepared_conserves s dp e = elim (Bool-cases (is_empty s.waiting_dissemination_txs)) [
    | inl none_wait ↦ absurd (ground (arith, e, none_wait))
    | inr wait ↦ elim (Bool-cases (is_empty s.own_data_proposal_in_preparation)) [
      | inr busy ↦ absurd (ground (arith, e, wait, busy))
      | inl free ↦
          let same : dp ≡ record {
            parent_data_proposal_hash = get_lane_hash_tip s.lanes env.validator_pubkey;
            txs = (take_txs env.estimate_size 0 s.waiting_dissemination_txs).0;
          } =
            ground (arith, e, wait, free) in
          (
            ground (
              arith,
              wait,
              free,
              take_txs-append env.estimate_size 0 s.waiting_dissemination_txs,
              ap (λ d. d.txs) same,
            ),
            ap (λ d. is_empty d.txs) same
                ∙ take_txs-takes env.estimate_size s.waiting_dissemination_txs wait,
            ap (λ d. d.parent_data_proposal_hash) same,
          )
    ]
  ]
