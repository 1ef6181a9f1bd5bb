-- ===== src/NodeState/BlockHandler/Coherence.antt =====
-- New transactions, proofs and timeouts keep the unsettled transactions coherent.
use hyle.Prelude.{
  ◌≡◌, refl, sym, subst, String, Bool, some, List, [], ◌∷◌, Option-cases, Result-cases, inl, inr,
  arith, map,
}
use hyle.Prelude.Key.{string_key, nat_key}
use hyle.Prelude.Map.{lookup, values}
use hyle.Model.{
  Blob, BlobProofOutput, BlobTransaction, Codec, TxContext, TxHash, UnsettledBlobTransaction,
}
use hyle.NodeState.OrderedTxMap.{
  OrderedTxMap, add, get_for_settlement, get_next_txs_blocked_by_tx, remove_tx,
}
use hyle.NodeState.OrderedTxMap.Coherent.{IsCoherent}
use hyle.NodeState.OrderedTxMap.Preserve.{add-IsCoherent, remove_tx-IsCoherent}
use hyle.NodeState.OrderedTxMap.Replace.{blocked-insert, replace-IsCoherent}
use hyle.NodeState.Proof.{verify_hyle_output}
use hyle.NodeState.Block.{Block, note_origin, push_events, timed_out}
use hyle.NodeState.Store.{NodeStateStore}
use hyle.NodeState.ContractUpdates.{Progress}
use hyle.NodeState.Nukes.{with_proof}
use hyle.NodeState.Settled.Coherence.{StoreIsCoherent}
use hyle.NodeState.UntilDone.{settle_txs_until_done}
use hyle.NodeState.UntilDone.Coherence.{settle_txs-IsCoherent}
use hyle.NodeState.BlobTx.{handle_blob_tx, start_timeout, admit, new_unsettled, check_blob_tx}
use hyle.NodeState.BlockHandler.{
  settle, save_proof, check_and_save, handle_blob_proof, reset_timeouts, time_out, time_out_each,
}

module _ (codec : Codec) where
  -- A step that keeps the coherence.
  abbrev pub Keeps : NodeStateStore → NodeStateStore → Type 0
  Keeps store store' = StoreIsCoherent codec store → StoreIsCoherent codec store'

  pub settle-Keeps :
      (store : NodeStateStore) (block : Block) (todo : List TxHash)
      → Keeps store (settle codec store block todo).0
  unfolding settle
  settle-Keeps store block todo w =
      elim (Option-cases (settle_txs_until_done codec store block todo)) [
        | inl e ↦ rw (e, settle) w
        | inr (p, e) ↦ rw (e, settle) (settle_txs-IsCoherent codec store block todo p w e)
      ]

  start_timeout_txs :
      (store : NodeStateStore) (h : TxHash) (blobs : List Blob)
      → (start_timeout codec store h blobs).unsettled_transactions ≡ store.unsettled_transactions
  unfolding start_timeout
  start_timeout_txs store h blobs = ground arith

  start_timeout-Keeps :
      (store : NodeStateStore) (h : TxHash) (blobs : List Blob)
      → Keeps store (start_timeout codec store h blobs)
  unfolding start_timeout
  start_timeout-Keeps store h blobs w =
      subst (IsCoherent codec) (sym (start_timeout_txs store h blobs)) w

  admit-Keeps :
      (store : NodeStateStore) (parent : String) (h : TxHash) (tx : BlobTransaction)
      (context : TxContext)
      → Keeps store (admit codec store parent h tx context).0
  unfolding admit
  admit-Keeps store parent h tx context w =
      let new : UnsettledBlobTransaction = new_unsettled codec store parent h tx context in
      elim (Option-cases (add codec store.unsettled_transactions new).1) [
        | inl f ↦ rw (f, admit) w
        | inr (next, f) ↦
            rw (f, admit)
              (start_timeout-Keeps
                (record store {
                  unsettled_transactions = (add codec store.unsettled_transactions new).0;
                })
                h tx.blobs (add-IsCoherent codec store.unsettled_transactions new w))
      ]

  pub handle_blob_tx-Keeps :
      (store : NodeStateStore) (parent : String) (h : TxHash) (tx : BlobTransaction)
      (context : TxContext)
      → Keeps store (handle_blob_tx codec store parent h tx context).0
  unfolding handle_blob_tx
  handle_blob_tx-Keeps store parent h tx context w =
      elim (Result-cases (check_blob_tx codec store tx)) [
        | inr (x, e) ↦ rw (e, handle_blob_tx) w
        | inl (u, e) ↦ rw (e, handle_blob_tx) (admit-Keeps store parent h tx context w)
      ]

  check_and_save-Keeps :
      (store : NodeStateStore) (block : Block) (proof_tx_hash : TxHash) (proven : BlobProofOutput)
      (tx : UnsettledBlobTransaction) (should : Bool)
      → lookup proven.blob_tx_hash store.unsettled_transactions.map ≡ some tx
      → Keeps store (check_and_save codec store block proof_tx_hash proven tx should).0.0
  unfolding check_and_save save_proof
  check_and_save-Keeps store block proof_tx_hash proven tx should known w =
      elim (Result-cases (verify_hyle_output codec tx proven.hyle_output)) [
        | inr (x, e) ↦ rw (e, check_and_save) w
        | inl (u, e) ↦ elim (Option-cases (lookup proven.hyle_output.index tx.blobs)) [
          | inl f ↦ rw (e, f, check_and_save) w
          | inr (b, f) ↦
              rw (e, f, check_and_save)
                (replace-IsCoherent codec store.unsettled_transactions proven.blob_tx_hash tx
                  (with_proof tx proven.hyle_output.index b (proven.program_id, proven.hyle_output))
                  w known refl (blocked-insert codec tx proven.hyle_output.index b _ f refl))
        ]
      ]

  for_settlement_known :
      (s : OrderedTxMap) (h : TxHash) (tx : UnsettledBlobTransaction) (should : Bool)
      → get_for_settlement codec s h ≡ some (tx, should)
      → lookup h s.map ≡ some tx
  unfolding get_for_settlement
  for_settlement_known s h tx should e = ground arith

  pub handle_blob_proof-Keeps :
      (store : NodeStateStore) (block : Block) (proof_tx_hash : TxHash) (proven : BlobProofOutput)
      → Keeps store (handle_blob_proof codec store block proof_tx_hash proven).0.0
  unfolding handle_blob_proof
  handle_blob_proof-Keeps store block proof_tx_hash proven w =
      elim (Option-cases
        (get_for_settlement codec store.unsettled_transactions proven.blob_tx_hash)) [
          | inl e ↦ rw (e, handle_blob_proof) w
          | inr ((tx, should), e) ↦
              rw (e, handle_blob_proof)
                (check_and_save-Keeps store (note_origin tx.hash tx block) proof_tx_hash proven tx
                  should
                  (for_settlement_known store.unsettled_transactions proven.blob_tx_hash tx should
                    e)
                  w)
        ]

  pub reset_timeouts-Keeps :
      (store : NodeStateStore) (hs : List TxHash) → Keeps store (reset_timeouts codec store hs)
  unfolding reset_timeouts
  reset_timeouts-Keeps store [] w = w
  reset_timeouts-Keeps store (h ∷ hs) w =
      elim (Option-cases (lookup h store.unsettled_transactions.map)) [
        | inl e ↦ rw (e, reset_timeouts) (reset_timeouts-Keeps store hs w)
        | inr (tx, e) ↦
            rw (e, reset_timeouts)
              (reset_timeouts-Keeps
                (start_timeout codec store h (map (λ b. b.blob) (values tx.blobs))) hs
                (start_timeout-Keeps store h (map (λ b. b.blob) (values tx.blobs)) w))
      ]

  time_out-Keeps :
      (store : NodeStateStore) (block : Block) (h : TxHash)
      → Keeps store (time_out codec store block h).0.0
  unfolding time_out
  time_out-Keeps store block h w =
      elim (Option-cases (remove_tx codec store.unsettled_transactions h).1) [
        | inl e ↦ rw (e, time_out) w
        | inr (tx, e) ↦
            let s : OrderedTxMap = (remove_tx codec store.unsettled_transactions h).0 in
            let noted : Block =
              note_origin tx.hash tx (push_events tx.hash (timed_out ∷ []) block) in
            let todo : List TxHash = get_next_txs_blocked_by_tx codec s tx in
            let p : Progress =
              settle codec (record store { unsettled_transactions = s }) noted todo in
            rw (e, time_out)
              (reset_timeouts-Keeps p.0 p.1.1 (
                settle-Keeps (record store { unsettled_transactions = s }) noted todo
                  (remove_tx-IsCoherent codec store.unsettled_transactions h w)))
      ]

  pub time_out_each-Keeps :
      (store : NodeStateStore) (block : Block) (hs : List TxHash)
      → Keeps store (time_out_each codec store block hs).0.0
  unfolding time_out_each
  time_out_each-Keeps store block [] w = w
  time_out_each-Keeps store block (h ∷ hs) w =
      time_out_each-Keeps (time_out codec store block h).0.0 (time_out codec store block h).0.1 hs
        (time_out-Keeps store block h w)
