-- ===== src/NodeState/Nukes.antt =====
-- crates/hyle-modules/src/node_state.rs, `on_settled_blob_tx`: the proofs that a nuke adds to
-- transactions that are not settled, to force them to fail.
use hyle.Prelude.{Option, none, some, List, [], ◌∷◌, ◌++◌, if◌then◌else◌}
use hyle.Prelude.Key.{string_key, nat_key}
use hyle.Prelude.Map.{Map, lookup, insert}
use hyle.Prelude.Sets.{btree_insert, btree_append}
use hyle.Model.{
  BlobIndex, Codec, HyleOutput, ProgramId, TxHash, UnsettledBlobMetadata, UnsettledBlobTransaction,
}
use hyle.NodeState.Changes.{Contracts}
use hyle.NodeState.Block.{new_proof, push_events}
use hyle.NodeState.Store.{NodeStateStore}
use hyle.NodeState.ContractUpdates.{Progress}

abbrev pub with_proof :
    UnsettledBlobTransaction
    → BlobIndex
    → UnsettledBlobMetadata
    → ProgramId × HyleOutput
    → UnsettledBlobTransaction
with_proof tx index b proof = record tx {
  blobs = insert index (record b { possible_proofs = b.possible_proofs ++ proof ∷ [] }) tx.blobs;
}

module _ (codec : Codec) where
  -- The proof that a nuke adds: an output that failed is moved to the contract's current state.
  unfoldable pub nuke_output :
      Contracts → UnsettledBlobTransaction → HyleOutput → Option (ProgramId × HyleOutput)
  nuke_output contracts tx output = elim (lookup output.index tx.blobs) [
    | none ↦ none
    | some b ↦ elim (lookup b.blob.contract_name contracts) [
      | none ↦ none
      | some c ↦ some (
        c.program_id,
        if output.success
            then output
            else record output { initial_state = c.state; next_state = c.state },
      )
    ]
  ]

  unfoldable pub nuke_outputs :
      Contracts → UnsettledBlobTransaction → List HyleOutput → List (ProgramId × HyleOutput)
  unfolding nuke_output
  nuke_outputs contracts tx [] = []
  nuke_outputs contracts tx (output ∷ outputs) =
      let rest = nuke_outputs contracts tx outputs in
      elim (nuke_output contracts tx output) [ none ↦ rest | some proof ↦ proof ∷ rest ]

  -- The loop over `txs_to_nuke`: an entry for each transaction that has a proof to add.
  unfoldable pub nuke_updates :
      NodeStateStore → Map TxHash (List HyleOutput) → Map TxHash (List (ProgramId × HyleOutput))
  unfolding nuke_outputs
  nuke_updates store [] = []
  nuke_updates store ((h, outputs) ∷ more) =
      let rest = nuke_updates store more in
      elim (lookup h store.unsettled_transactions.map) [
        | none ↦ rest
        | some tx ↦ elim (nuke_outputs store.contracts tx outputs) [
          | [] ↦ rest
          | proof ∷ proofs ↦ (h, proof ∷ proofs) ∷ rest
        ]
      ]

  -- One proof of the second loop, for a transaction that is there.
  unfoldable pub force_proof : TxHash → TxHash → ProgramId × HyleOutput → Progress → Progress
  force_proof bth h proof (store, (block, forced)) =
      elim (lookup h store.unsettled_transactions.map) [
        | none ↦ (store, (block, forced))
        | some tx ↦ elim (lookup proof.1.index tx.blobs) [
          | none ↦ (store, (block, forced))
          | some b ↦ (
            record store {
              unsettled_transactions = record store.unsettled_transactions {
                map =
                    insert h (with_proof tx proof.1.index b proof) store.unsettled_transactions.map;
              };
            },
            (
              push_events h (new_proof proof.1.index bth proof.1.program_outputs ∷ []) block,
              btree_insert h forced,
            ),
          )
        ]
      ]

  unfoldable pub force_proofs :
      TxHash → TxHash → List (ProgramId × HyleOutput) → Progress → Progress
  unfolding force_proof
  force_proofs bth h [] progress = progress
  force_proofs bth h (proof ∷ proofs) progress =
      force_proofs bth h proofs (force_proof bth h proof progress)

  unfoldable pub force_all :
      TxHash → Map TxHash (List (ProgramId × HyleOutput)) → Progress → Progress
  unfolding force_proofs
  force_all bth [] progress = progress
  force_all bth ((h, proofs) ∷ updates) progress =
      force_all bth updates (force_proofs bth h proofs progress)

  unfoldable pub nuke_txs : TxHash → Map TxHash (List HyleOutput) → Progress → Progress
  unfolding nuke_updates force_all
  nuke_txs bth txs (store, (block, next)) =
      let (store', rest) = force_all bth (nuke_updates store txs) (store, (block, [])) in
      (store', (rest.0, btree_append next rest.1))
