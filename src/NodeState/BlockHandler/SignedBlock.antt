-- ===== src/NodeState/BlockHandler/SignedBlock.antt =====
-- A block keeps the unsettled transactions and their queues coherent, and so does a chain of them.
use hyle.Prelude.{◌≡◌, subst, some, List, [], ◌∷◌, Result, ok, err, arith}
use hyle.Prelude.Key.{string_key, nat_key}
use hyle.Model.{
  BlobProofOutput, Codec, TransactionData, blob_transaction, proof_transaction,
  verified_proof_transaction, TxContext, TxHash,
}
use hyle.NodeState.OrderedTxMap.Preserve.{empty-IsCoherent}
use hyle.NodeState.Timeouts.{drop_at}
use hyle.NodeState.Block.{Block, HandleError, TxId, empty_block}
use hyle.NodeState.Store.{NodeStateStore, default_store}
use hyle.NodeState.Settled.Coherence.{StoreIsCoherent}
use hyle.NodeState.BlobTx.{BlobTxHandled, should_settle, duplicate, handled, handle_blob_tx}
use hyle.NodeState.BlockHandler.{
  run_block, note_proof, handle_blob_proof, clear_timeouts, after_blob_tx, handle_proofs,
  handle_transaction_data, SignedTx, handle_tx, handle_txs, handle_signed_block,
}
use hyle.NodeState.BlockHandler.Coherence.{
  Keeps, settle-Keeps, handle_blob_tx-Keeps, handle_blob_proof-Keeps, reset_timeouts-Keeps,
  time_out_each-Keeps,
}

module _ (codec : Codec) where
  after_blob_tx-Keeps :
      (store : NodeStateStore) (block : Block) (id : TxId) (r : Result HandleError BlobTxHandled)
      → Keeps codec store (after_blob_tx codec store block id r).0
  unfolding after_blob_tx
  after_blob_tx-Keeps store block id (ok (should_settle h)) w =
      settle-Keeps codec store block (h ∷ []) w
  after_blob_tx-Keeps store block id (ok duplicate) w = w
  after_blob_tx-Keeps store block id (ok handled) w = w
  after_blob_tx-Keeps store block id (err e) w = w

  handle_proofs-Keeps :
      (store : NodeStateStore) (block : Block) (id : TxId) (todo : List TxHash)
      (proofs : List BlobProofOutput)
      → Keeps codec store (handle_proofs codec store block id todo proofs).0
  unfolding handle_proofs
  handle_proofs-Keeps store block id todo [] w = w
  handle_proofs-Keeps store block id todo (proven ∷ more) w =
      let (state, result) = handle_blob_proof codec store block id.1 proven in
      let (block', todo') = note_proof codec state.1 id proven todo result in
      handle_proofs-Keeps state.0 block' id todo' more
        (handle_blob_proof-Keeps codec store block id.1 proven w)

  handle_data-Keeps :
      (store : NodeStateStore) (block : Block) (context : TxContext) (id : TxId)
      (tx : TransactionData)
      → Keeps codec store (handle_transaction_data codec store block context id tx).0
  unfolding handle_transaction_data
  handle_data-Keeps store block context id (blob_transaction tx) w =
      let handled' : NodeStateStore × Result HandleError BlobTxHandled =
        handle_blob_tx codec store id.0 id.1 tx context in
      after_blob_tx-Keeps handled'.0 block id handled'.1
        (handle_blob_tx-Keeps codec store id.0 id.1 tx context w)
  handle_data-Keeps store block context id (proof_transaction tx) w = w
  handle_data-Keeps store block context id (verified_proof_transaction tx) w =
      settle-Keeps codec (handle_proofs codec store block id [] tx.proven_blobs).0
        (handle_proofs codec store block id [] tx.proven_blobs).1.0
        (handle_proofs codec store block id [] tx.proven_blobs).1.1
        (handle_proofs-Keeps store block id [] tx.proven_blobs w)

  handle_tx-Keeps :
      (context : TxContext) (store : NodeStateStore) (block : Block) (tx : SignedTx codec)
      → Keeps codec store (handle_tx codec context store block tx).0
  unfolding handle_tx
  handle_tx-Keeps context store block (lane_id, id, tx) w =
      reset_timeouts-Keeps codec _ _
        (handle_data-Keeps store _ (record context { lane_id = lane_id }) id tx w)

  handle_txs-Keeps :
      (context : TxContext) (store : NodeStateStore) (block : Block) (txs : List (SignedTx codec))
      → Keeps codec store (handle_txs codec context store block txs).0
  unfolding handle_txs
  handle_txs-Keeps context store block [] w = w
  handle_txs-Keeps context store block (tx ∷ txs) w =
      handle_txs-Keeps context (handle_tx codec context store block tx).0
        (handle_tx codec context store block tx).1 txs (handle_tx-Keeps context store block tx w)

  run_block-Keeps :
      (store : NodeStateStore) (context : TxContext) (txs : List (SignedTx codec))
      → Keeps codec store (run_block codec store context txs).0
  unfolding run_block clear_timeouts
  run_block-Keeps store context txs w =
      let start : NodeStateStore = record store {
        timeouts = (drop_at store.timeouts context.block_height).0;
        current_height = context.block_height;
      } in
      handle_txs-Keeps context _ _ txs (
        time_out_each-Keeps codec start (empty_block context.block_height)
          (drop_at store.timeouts context.block_height).1 w)

  runs :
      (store : NodeStateStore) (context : TxContext) (txs : List (SignedTx codec))
      (after : NodeStateStore × Block)
      → handle_signed_block codec store context txs ≡ some after
      → run_block codec store context txs ≡ after
  unfolding handle_signed_block
  runs store context txs after e = ground arith

  -- Where the unsettled transactions are coherent before a block, they are so after it.
  pub signed_block-IsCoherent :
      (store store' : NodeStateStore) (context : TxContext) (txs : List (SignedTx codec))
      (block : Block)
      → StoreIsCoherent codec store
      → handle_signed_block codec store context txs ≡ some (store', block)
      → StoreIsCoherent codec store'
  signed_block-IsCoherent store store' context txs block w e =
      subst (λ p. StoreIsCoherent codec p.0) (runs store context txs (store', block) e)
        (run_block-Keeps store context txs w)

  -- The states that blocks reach from the start.
  pub data Reachable : NodeStateStore → Type 0 where
    starts : Reachable default_store
    handles :
        (store store' : NodeStateStore) (context : TxContext) (txs : List (SignedTx codec))
        (block : Block)
        → Reachable store
        → handle_signed_block codec store context txs ≡ some (store', block)
        → Reachable store'

  -- In every state that the node reaches, a transaction stands once in the queue of each contract that
  -- it touches, and in no other queue.
  pub Reachable-IsCoherent :
      (store : NodeStateStore) → Reachable store → StoreIsCoherent codec store
  Reachable-IsCoherent store starts = empty-IsCoherent codec
  Reachable-IsCoherent store (handles before _ context txs block r e) =
      signed_block-IsCoherent before store context txs block (Reachable-IsCoherent before r) e
