-- ===== src/NodeState/BlockHandler.antt =====
-- crates/hyle-modules/src/node_state.rs: `handle_blob_proof`, `clear_timeouts` and
-- `handle_signed_block`. `settle` is the loop of settlements, which always has a result (UntilDone).
pub mod Coherence
pub mod SignedBlock
use hyle.Prelude.{
  ℕ, ◌+◌, ◌-◌, ◌≡◌, String, Bool, true, false, not, ◌&&◌, ◌||◌, Option, none, some, List, [], ◌∷◌,
  ◌++◌, if◌then◌else◌, nat_eq, length, map, unwrap_or, Result, ok, err,
}
use hyle.Prelude.Key.{◌==◌, string_key, nat_key}
use hyle.Prelude.Word.{add_u64}
use hyle.Prelude.Map.{Map, lookup, insert, contains_key, values}
use hyle.Prelude.Sets.{btree_insert}
use hyle.Model.{
  BlobProofOutput, BlobTransaction, BlockHeight, Codec, TransactionData, blob_transaction,
  proof_transaction, verified_proof_transaction, TxContext, TxHash, UnsettledBlobMetadata,
  UnsettledBlobTransaction, ValidatorPublicKey,
}
use hyle.NodeState.OrderedTxMap.{
  OrderedTxMap, get_for_settlement, get_next_txs_blocked_by_tx, is_next_to_settle, remove_tx,
}
use hyle.NodeState.Timeouts.{drop_at}
use hyle.NodeState.Proof.{verify_hyle_output}
use hyle.NodeState.Block.{
  Block, HandleError, blob_tx_not_found, blob_not_found, invalid_output, TxId, error_event,
  new_proof, sequenced, timed_out, dropped_as_duplicate, push_events, note_origin, empty_block,
}
use hyle.NodeState.Store.{NodeStateStore}
use hyle.NodeState.ContractUpdates.{Progress}
use hyle.NodeState.Nukes.{with_proof}
use hyle.NodeState.UntilDone.{settle_txs_until_done}
use hyle.NodeState.BlobTx.{
  BlobTxHandled, should_settle, duplicate, handled, handle_blob_tx, start_timeout,
}

module _ (codec : Codec) where
  unfoldable pub settle : NodeStateStore → Block → List TxHash → Progress
  settle store block todo =
      unwrap_or (settle_txs_until_done codec store block todo) (store, (block, []))

  -- A proof that is kept: it joins the possible proofs of its blob.
  unfoldable pub save_proof :
      NodeStateStore
      → Block
      → TxHash
      → BlobProofOutput
      → UnsettledBlobTransaction
      → UnsettledBlobMetadata
      → NodeStateStore × Block
  save_proof store block proof_tx_hash proven tx blob =
      let output = proven.hyle_output in
      let noted =
        push_events proven.blob_tx_hash
          (new_proof output.index proof_tx_hash output.program_outputs ∷ []) block in
      (
        record store {
          unsettled_transactions = record store.unsettled_transactions {
            map =
                insert proven.blob_tx_hash
                  (with_proof tx output.index blob (proven.program_id, output))
                  store.unsettled_transactions.map;
          };
        },
        record noted {
          blob_proof_outputs =
              noted.blob_proof_outputs
              ++ record {
                proof_tx_hash = proof_tx_hash;
                blob_tx_hash = tx.hash;
                blob_index = output.index;
                contract_name = blob.blob.contract_name;
                hyle_output = output;
                blob_proof_output_index = length blob.possible_proofs;
              }
                ∷ [];
        },
      )

  -- The state after a proof, and the transaction to try, if any.
  abbrev pub ProofHandled : Type 0
  ProofHandled = (NodeStateStore × Block) × Result HandleError (Option TxHash)

  unfoldable pub check_and_save :
      NodeStateStore
      → Block
      → TxHash
      → BlobProofOutput
      → UnsettledBlobTransaction
      → Bool
      → ProofHandled
  unfolding save_proof
  check_and_save store block proof_tx_hash proven tx should =
      elim (verify_hyle_output codec tx proven.hyle_output) [
        | err e ↦ ((store, block), err (invalid_output e))
        | ok done ↦ elim (lookup proven.hyle_output.index tx.blobs) [
          | none ↦ ((store, block), err blob_not_found)
          | some blob ↦ (
            save_proof store block proof_tx_hash proven tx blob,
            ok (if should then some tx.hash else none),
          )
        ]
      ]

  unfoldable pub handle_blob_proof :
      NodeStateStore → Block → TxHash → BlobProofOutput → ProofHandled
  unfolding check_and_save
  handle_blob_proof store block proof_tx_hash proven =
      elim (get_for_settlement codec store.unsettled_transactions proven.blob_tx_hash) [
        | none ↦ ((store, block), err blob_tx_not_found)
        | some (tx, should) ↦
            check_and_save store (note_origin tx.hash tx block) proof_tx_hash proven tx should
      ]

  -- The timeout of each transaction that could not be settled and is next.
  unfoldable pub reset_timeouts : NodeStateStore → List TxHash → NodeStateStore
  reset_timeouts store [] = store
  reset_timeouts store (h ∷ hs) = elim (lookup h store.unsettled_transactions.map) [
    | none ↦ reset_timeouts store hs
    | some tx ↦
        reset_timeouts (start_timeout codec store h (map (λ b. b.blob) (values tx.blobs))) hs
  ]

  -- One transaction at its timeout: is it dropped?
  unfoldable pub time_out : NodeStateStore → Block → TxHash → (NodeStateStore × Block) × Bool
  unfolding settle reset_timeouts
  time_out store block h =
      let (txs, popped) = remove_tx codec store.unsettled_transactions h in
      elim popped [
        | none ↦ ((store, block), false)
        | some tx ↦
            let noted = note_origin tx.hash tx (push_events tx.hash (timed_out ∷ []) block) in
            let (store', rest) =
              settle (record store { unsettled_transactions = txs }) noted
                (get_next_txs_blocked_by_tx codec txs tx) in
            ((reset_timeouts store' rest.1, rest.0), true)
      ]

  -- `retain`: the transactions that are dropped, in their order.
  unfoldable pub time_out_each :
      NodeStateStore → Block → List TxHash → (NodeStateStore × Block) × List TxHash
  unfolding time_out
  time_out_each store block [] = ((store, block), [])
  time_out_each store block (h ∷ hs) =
      let (state, dropped) = time_out store block h in
      let (state', others) = time_out_each state.0 state.1 hs in
      (state', if dropped then h ∷ others else others)

  unfoldable pub clear_timeouts : NodeStateStore → Block → NodeStateStore × Block
  unfolding time_out_each
  clear_timeouts store block =
      let (timeouts, txs) = drop_at store.timeouts block.block_height in
      let (state, dropped) = time_out_each (record store { timeouts = timeouts }) block txs in
      (state.0, record state.1 { timed_out_txs = dropped })

  -- The arms of the match on `handle_blob_tx`.
  unfoldable pub after_blob_tx :
      NodeStateStore → Block → TxId → Result HandleError BlobTxHandled → Progress
  unfolding settle
  after_blob_tx store block id (ok (should_settle h)) = settle store block (h ∷ [])
  after_blob_tx store block id (ok duplicate) =
      let noted = push_events id.1 (dropped_as_duplicate ∷ []) block in
      (store, (record noted { dropped_duplicate_txs = noted.dropped_duplicate_txs ++ id ∷ [] }, []))
  after_blob_tx store block id (ok handled) = (store, (push_events id.1 (sequenced ∷ []) block, []))
  after_blob_tx store block id (err e) =
      let noted = push_events id.1 (error_event e ∷ []) block in
      (store, (record noted { failed_txs = noted.failed_txs ++ id.1 ∷ [] }, []))

  -- The error of a proof is noted at its transaction, where the block knows that.
  abbrev pub error_target : Block → TxId → BlobProofOutput → TxHash
  error_target block id proven =
      if contains_key proven.blob_tx_hash block.dp_parent_hashes then proven.blob_tx_hash else id.1

  -- What the result of a proof adds to the block, or to the set of transactions to try.
  unfoldable pub note_proof :
      Block
      → TxId
      → BlobProofOutput
      → List TxHash
      → Result HandleError (Option TxHash)
      → Block × List TxHash
  note_proof block id proven todo (ok none) = (block, todo)
  note_proof block id proven todo (ok (some h)) = (block, btree_insert h todo)
  note_proof block id proven todo (err e) =
      (push_events (error_target block id proven) (error_event e ∷ []) block, todo)

  -- The proofs of a transaction, and the set of transactions to try.
  unfoldable pub handle_proofs :
      NodeStateStore → Block → TxId → List TxHash → List BlobProofOutput → Progress
  unfolding handle_blob_proof note_proof
  handle_proofs store block id todo [] = (store, (block, todo))
  handle_proofs store block id todo (proven ∷ more) =
      let (state, result) = handle_blob_proof store block id.1 proven in
      let (block', todo') = note_proof state.1 id proven todo result in
      handle_proofs state.0 block' id todo' more

  unfoldable pub handle_transaction_data :
      NodeStateStore → Block → TxContext → TxId → TransactionData → Progress
  unfolding after_blob_tx handle_proofs settle
  handle_transaction_data store block context id (blob_transaction tx) =
      let (store', result) = handle_blob_tx codec store id.0 id.1 tx context in
      after_blob_tx store' block id result
  handle_transaction_data store block context id (proof_transaction tx) = (store, (block, []))
  handle_transaction_data store block context id (verified_proof_transaction tx) =
      let (store', rest) = handle_proofs store block id [] tx.proven_blobs in
      settle store' rest.0 rest.1

  -- A transaction of the block, with its lane.
  abbrev pub SignedTx : Type 0
  SignedTx = ValidatorPublicKey × TxId × TransactionData

  unfoldable pub handle_tx : TxContext → NodeStateStore → Block → SignedTx → NodeStateStore × Block
  unfolding handle_transaction_data reset_timeouts
  handle_tx context store block (lane_id, id, tx) =
      let origin : Block = record block {
        lane_ids = insert id.1 lane_id block.lane_ids;
        dp_parent_hashes = insert id.1 id.0 block.dp_parent_hashes;
      } in
      let (store', rest) =
        handle_transaction_data store origin (record context { lane_id = lane_id }) id tx in
      (reset_timeouts store' rest.1, record rest.0 { txs = rest.0.txs ++ id ∷ [] })

  unfoldable pub handle_txs :
      TxContext → NodeStateStore → Block → List SignedTx → NodeStateStore × Block
  unfolding handle_tx
  handle_txs context store block [] = (store, block)
  handle_txs context store block (tx ∷ txs) =
      let state = handle_tx context store block tx in handle_txs context state.0 state.1 txs

  -- The next height, or the first block.
  abbrev pub expects_height : BlockHeight → BlockHeight → Bool
  expects_height current height =
      nat_eq (add_u64 current 1) height || (nat_eq current 0 && nat_eq height 0)

  unfoldable pub run_block : NodeStateStore → TxContext → List SignedTx → NodeStateStore × Block
  unfolding clear_timeouts handle_txs
  run_block store context txs =
      let height = context.block_height in
      let state = clear_timeouts (record store { current_height = height }) (empty_block height) in
      handle_txs context state.0 state.1 txs

  -- No result: the height is not the next one. The context's lane is that of each transaction.
  unfoldable pub handle_signed_block :
      NodeStateStore → TxContext → List SignedTx → Option (NodeStateStore × Block)
  unfolding run_block
  handle_signed_block store context txs =
      if expects_height store.current_height context.block_height
      then some (run_block store context txs)
      else none
