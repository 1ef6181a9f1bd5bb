-- ===== src/NodeState/Settled.antt =====
-- crates/hyle-modules/src/node_state.rs: `on_settled_blob_tx`, what a settled transaction does to the
-- contracts, to the other transactions and to the block.
pub mod Fewer
pub mod Deletion
pub mod Coherence
use hyle.Prelude.{
  ℕ, zero, suc, ◌≡◌, Bool, true, false, Option, none, some, List, [], ◌∷◌, ◌++◌, if◌then◌else◌,
  is_some, length, is_empty, unwrap_or,
}
use hyle.Prelude.Key.{◌==◌, string_key, nat_key}
use hyle.Prelude.Map.{Map, lookup, insert, remove, get_or, contains_key}
use hyle.Prelude.Sets.{set_extend, btree_insert, btree_append}
use hyle.Model.{
  BlobIndex, Blob, Bytes, Codec, Contract, ContractName, HyleOutput, Identity, ProgramId, TxHash,
  UnsettledBlobMetadata, UnsettledBlobTransaction,
}
use hyle.NodeState.OrderedTxMap.{
  OrderedTxMap, get_next_unsettled_tx, get_contracts_blocked_by_tx, get_next_txs_blocked_by_tx,
  remove_tx, next_txs,
}
use hyle.NodeState.Changes.{
  Contracts, ContractChanges, ModifiedContractData, ModifiedContractFields, SideEffect, register,
}
use hyle.NodeState.Settle.{SettlementResult}
use hyle.NodeState.Block.{
  Block, settled_event, settled_as_failed, timed_out, new_proof, push_events, note_origin,
}
use hyle.NodeState.Store.{NodeStateStore}
use hyle.NodeState.ContractUpdates.{Progress, apply_changes}
use hyle.NodeState.Nukes.{nuke_txs}

-- `slice.get(i)`
abbrev pub nth {ℓ} : {A : Type ℓ} → List A → ℕ → Option A
nth [] i = none
nth (x ∷ xs) zero = some x
nth (x ∷ xs) (suc i) = nth xs i

module _ (codec : Codec) where
  -- One blob of the settled transaction: the proof that settled it, the staking action that it holds.
  unfoldable pub note_blob : TxHash → Identity → List ℕ → Block → BlobIndex → Blob → Block
  note_blob bth identity indices block index blob =
      let block' = record block {
        verified_blobs = block.verified_blobs ++ (bth, index, nth indices index) ∷ [];
      } in
      if blob.contract_name == "staking"
      then elim (codec.staking_action blob.blob_data) [
        | some action ↦ record block' {
          staking_actions = block'.staking_actions ++ (identity, action) ∷ [];
        }
        | none ↦ block'
      ]
      else block'

  unfoldable pub note_blobs :
      TxHash → Identity → List ℕ → Block → Map BlobIndex UnsettledBlobMetadata → Block
  unfolding note_blob
  note_blobs bth identity indices block [] = block
  note_blobs bth identity indices block ((index, b) ∷ blobs) =
      note_blobs bth identity indices (note_blob bth identity indices block index b.blob) blobs

  -- `BTreeMap::extend`
  unfoldable pub extend_nukes :
      Map TxHash (List HyleOutput) → Map TxHash (List HyleOutput) → Map TxHash (List HyleOutput)
  extend_nukes txs [] = txs
  extend_nukes txs ((h, outputs) ∷ more) = extend_nukes (insert h outputs txs) more

  unfoldable pub collect_nukes :
      Map TxHash (List HyleOutput)
      → Map BlobIndex UnsettledBlobMetadata
      → Map TxHash (List HyleOutput)
  unfolding extend_nukes
  collect_nukes txs [] = txs
  collect_nukes txs ((index, b) ∷ blobs) =
      collect_nukes
        (elim (codec.nuke b.blob.blob_data) [ some more ↦ extend_nukes txs more | none ↦ txs ])
        blobs

  -- The block after the loop over the blobs, with the transactions that waited for this one.
  abbrev pub before_changes :
      NodeStateStore → Block → TxHash → UnsettledBlobTransaction → SettlementResult → Progress
  before_changes store block bth tx r = (
    store,
    (
      note_blobs bth tx.identity r.blob_proof_output_indices
          (push_events bth (settled_event ∷ []) block) tx.blobs,
      get_next_txs_blocked_by_tx codec store.unsettled_transactions tx,
    ),
  )

  unfoldable pub on_settled_blob_tx :
      NodeStateStore
      → Block
      → TxHash
      → UnsettledBlobTransaction
      → Option SettlementResult
      → Progress
  unfolding note_blobs collect_nukes apply_changes nuke_txs
  on_settled_blob_tx store block bth tx none = (
    store,
    (
      record (push_events bth (settled_as_failed ∷ []) block) {
        failed_txs = block.failed_txs ++ bth ∷ [];
      },
      get_next_txs_blocked_by_tx codec store.unsettled_transactions tx,
    ),
  )
  on_settled_blob_tx store block bth tx (some r) =
      let (store', rest) =
        nuke_txs codec bth (collect_nukes [] tx.blobs)
          (apply_changes codec bth r.contract_changes (before_changes store block bth tx r)) in
      (store', (record rest.0 { successful_txs = rest.0.successful_txs ++ bth ∷ [] }, rest.1))
