-- ===== src/Mempool/OwnLane.antt =====
-- The transactions that a node takes in and the data proposals it makes of them:
-- src/mempool/own_lane.rs, and the known contracts of src/mempool.rs.
pub mod Accepted
use hyle.Prelude.{
  ◌+◌, ℕ, Bool, true, false, not, ◌&&◌, ◌||◌, Option, none, some, List, [], ◌∷◌, ◌++◌, map,
  if◌then◌else◌, any, is_empty, length, ltb, Result, ok, err, unwrap_or,
}
use hyle.Prelude.Exec.{
  Exec, Done, pure, bail, lift, gets, reading, ok_or, modify, require, ◌>>=◌, ◌>>◌,
}
use hyle.Prelude.Key.{◌==◌, string_key}
use hyle.Prelude.Map.{lookup, insert}
use hyle.Prelude.Word.{add_u64}
use hyle.Model.{
  bytes_key, Blob, ContractName, Verifier, ProgramId, TxHash, HyleOutput, BlobProofOutput,
  BlobTransaction, RegisterContractEffect, ProofTransaction, VerifiedProofTransaction,
  TransactionData, blob_transaction, proof_transaction, verified_proof_transaction,
}
use hyle.Proposals.{DataProposalHash}
use hyle.Mempool.{
  DataProposal, KnownContracts, MempoolEnv, Mempool, MempoolError, too_many_blobs, contract_unknown,
  proof_fails, not_a_proof, data_proposal_created, waiting_dissemination, proof_task, M,
}
use hyle.Mempool.Storage.{get_lane_hash_tip, store_data_proposal}
use hyle.Mempool.Handlers.{send, on_lanes}

abbrev pub register_in : ContractName → Verifier → ProgramId → KnownContracts → KnownContracts
register_in name verifier program_id known = insert name (verifier, program_id) known

unfoldable pub handle_contract_registration : RegisterContractEffect → Mempool → Mempool
handle_contract_registration effect s = record s {
  known_contracts =
      register_in effect.contract_name effect.verifier effect.program_id s.known_contracts;
}

unfoldable pub handle_contract_update : ContractName → ProgramId → Mempool → Mempool
handle_contract_update name program_id s = elim (lookup name s.known_contracts) [
  | none ↦ s
  | some contract ↦ record s {
    known_contracts = insert name (contract.0, program_id) s.known_contracts;
  }
]

-- The transactions whose size is below 40 MB before the last of them, and the others.
unfoldable pub take_txs :
    (TransactionData → ℕ)
    → ℕ
    → List (TxHash × TransactionData)
    → List TransactionData × List (TxHash × TransactionData)
take_txs size_of size [] = ([], [])
take_txs size_of size ((hash, tx) ∷ txs) =
    let rest = take_txs size_of (add_u64 size (size_of tx)) txs in
    if ltb size 40000000 then (tx ∷ rest.0, rest.1) else ([], (hash, tx) ∷ txs)

-- The outputs of a proof and the programs that they are of, with the transactions they are for.
unfoldable pub proven_outputs : List HyleOutput → List ProgramId → List BlobProofOutput
proven_outputs (output ∷ outputs) (program_id ∷ ids) =
    record {
      blob_tx_hash = output.tx_hash;
      original_proof_hash = "todo?";
      hyle_output = output;
      program_id = program_id;
    }
    ∷ proven_outputs outputs ids
proven_outputs _ _ = []

module _ (env : MempoolEnv) where
  -- The blobs of the hyle contract that register one.
  unfoldable pub register_blobs : List Blob → KnownContracts → KnownContracts
  register_blobs [] known = known
  register_blobs (blob ∷ blobs) known = register_blobs blobs (
      if blob.contract_name == "hyle"
      then elim (env.codec.register blob.blob_data) [
        | none ↦ known
        | some action ↦ register_in action.contract_name action.verifier action.program_id known
      ]
      else known)

  unfoldable pub handle_hyle_contract_registration : BlobTransaction → Mempool → Mempool
  unfolding register_blobs
  handle_hyle_contract_registration tx s = record s {
    known_contracts = register_blobs tx.blobs s.known_contracts;
  }

  unfoldable pub check_proof :
      ProofTransaction → Verifier × ProgramId → Option (List HyleOutput × List ProgramId)
  check_proof tx contract =
      if tx.contract_name == "risc0-recursion"
      then elim (env.verify_recursive_proof tx.proof contract.0 contract.1) [
        | none ↦ none
        | some r ↦ some (r.1, r.0)
      ]
      else elim (env.verify_proof tx.proof contract.0 contract.1) [
        | none ↦ none
        | some outputs ↦ some (outputs, map (λ (o : HyleOutput). contract.1) outputs)
      ]

  -- What the task of a proof transaction does.
  unfoldable pub process_proof_tx :
      KnownContracts → TransactionData → Result MempoolError TransactionData
  unfolding check_proof proven_outputs
  process_proof_tx known (proof_transaction tx) = elim (lookup tx.contract_name known) [
    | none ↦ err contract_unknown
    | some contract ↦ elim (check_proof tx contract) [
      | none ↦ err proof_fails
      | some checked ↦ ok (
          verified_proof_transaction (record {
            contract_name = tx.contract_name;
            proof = some tx.proof;
            proof_hash = env.proof_hash tx.proof;
            proof_size = env.estimate_size (proof_transaction tx);
            proven_blobs = proven_outputs checked.0 checked.1;
            is_recursive = tx.contract_name == "risc0-recursion";
          }))
    ]
  ]
  process_proof_tx known (blob_transaction tx) = err not_a_proof
  process_proof_tx known (verified_proof_transaction tx) = err not_a_proof

  -- The parent that a transaction or a data proposal without one is given.
  abbrev tip_or_key : Mempool → DataProposalHash
  tip_or_key s =
      unwrap_or (get_lane_hash_tip s.lanes env.validator_pubkey) (env.key_text env.validator_pubkey)

  unfoldable pub await_dissemination : TransactionData → M Done
  unfolding send get_lane_hash_tip ◌>>=◌
  await_dissemination tx = reading (λ s.
      if any (λ (waiting : TxHash × TransactionData). waiting.0 == env.tx_hash tx)
        s.waiting_dissemination_txs
      then pure tt
      else (do
        modify (λ t. record t {
          waiting_dissemination_txs = t.waiting_dissemination_txs ++ (env.tx_hash tx, tx) ∷ [];
        })
        send (waiting_dissemination (tip_or_key s) tx)))

  unfoldable pub on_new_tx : TransactionData → M Done
  unfolding handle_hyle_contract_registration await_dissemination send ◌>>=◌
  on_new_tx (blob_transaction tx) = do
    require (not (ltb 20 (length tx.blobs))) too_many_blobs
    modify (handle_hyle_contract_registration tx)
    await_dissemination (blob_transaction tx)
  on_new_tx (proof_transaction tx) = send (proof_task (proof_transaction tx))
  on_new_tx (verified_proof_transaction tx) = await_dissemination (verified_proof_transaction tx)

  unfoldable pub init_dp_preparation_if_pending : Mempool → Option DataProposal × Mempool
  unfolding take_txs get_lane_hash_tip
  init_dp_preparation_if_pending s =
      if is_empty s.waiting_dissemination_txs || not (is_empty s.own_data_proposal_in_preparation)
      then (none, s)
      else (let (taken, rest) = take_txs env.estimate_size 0 s.waiting_dissemination_txs in
          (
            some (record {
              parent_data_proposal_hash = get_lane_hash_tip s.lanes env.validator_pubkey;
              txs = taken;
            }),
            record s { waiting_dissemination_txs = rest },
          ))

  -- The data proposal is hashed in a task.
  unfoldable pub prepare_new_data_proposal : Mempool → Bool × Mempool
  unfolding init_dp_preparation_if_pending
  prepare_new_data_proposal s =
      let (prepared, s') = init_dp_preparation_if_pending s in
      elim prepared [
        | none ↦ (false, s')
        | some dp ↦ (
          true,
          record s' {
            own_data_proposal_in_preparation = s'.own_data_proposal_in_preparation ++ dp ∷ [];
          },
        )
      ]

  unfoldable pub register_new_data_proposal : DataProposal → M Done
  unfolding send on_lanes store_data_proposal ◌>>=◌
  register_new_data_proposal dp =
      let parent = unwrap_or dp.parent_data_proposal_hash (env.key_text env.validator_pubkey) in
      do
        send (data_proposal_created parent (env.hashed dp) dp.txs)
        on_lanes (store_data_proposal env env.validator_pubkey dp)
        pure tt
