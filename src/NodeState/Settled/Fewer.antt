-- ===== src/NodeState/Settled/Fewer.antt =====
-- No step of a settlement adds an unsettled transaction.
use hyle.Prelude.{
  ℕ, zero, suc, ◌≤◌, Option, none, some, List, [], ◌∷◌, arith, length, is_some, Option-cases, inl,
  inr, ap,
}
use hyle.Prelude.Key.{string_key, nat_key}
use hyle.Prelude.Map.{Map, lookup}
use hyle.Prelude.Sizes.{length-remove_le, length-insert_known}
use hyle.Prelude.Sets.{set_extend}
use hyle.Model.{Codec, ContractName, HyleOutput, ProgramId, TxHash, UnsettledBlobTransaction}
use hyle.NodeState.OrderedTxMap.{
  OrderedTxMap, remove_tx, get_next_unsettled_tx, get_contracts_blocked_by_tx,
}
use hyle.NodeState.Changes.{ContractChanges, ModifiedContractData}
use hyle.NodeState.Settle.{SettlementResult}
use hyle.NodeState.Block.{Block, timed_out, note_origin, push_events}
use hyle.NodeState.Store.{NodeStateStore}
use hyle.NodeState.Settled.{before_changes, collect_nukes, on_settled_blob_tx}
use hyle.NodeState.ContractUpdates.{
  Progress, time_out_all, delete_contract, apply_change, apply_changes,
}
use hyle.NodeState.Nukes.{nuke_updates, with_proof, force_proof, force_proofs, force_all, nuke_txs}

-- The number of unsettled transactions.
abbrev pub unsettled : NodeStateStore → ℕ
unsettled store = length store.unsettled_transactions.map

module _ (codec : Codec) where
  remove_tx_le : (s : OrderedTxMap) (h : TxHash) → length (remove_tx codec s h).0.map ≤ length s.map
  unfolding remove_tx
  remove_tx_le s h = ground (arith, length-remove_le h s.map)

  time_out_all_le :
      (fuel : ℕ) (name : ContractName) (s : OrderedTxMap) (block : Block)
      (blocked : List ContractName)
      → length (time_out_all codec fuel name s block blocked).0.map ≤ length s.map
  unfolding time_out_all
  time_out_all_le zero name s block blocked = omega arith
  time_out_all_le (suc fuel) name s block blocked =
      elim (Option-cases (get_next_unsettled_tx s name)) [
        | inl e ↦ rw (e, time_out_all) (omega arith)
        | inr (h, e) ↦ elim (Option-cases (remove_tx codec s h).1) [
          | inl f ↦
              rw (e, f, time_out_all)
                (omega (
                  arith,
                  remove_tx_le s h,
                  time_out_all_le fuel name (remove_tx codec s h).0 block blocked,
                ))
          | inr (tx, f) ↦
              rw (e, f, time_out_all)
                (omega (
                  arith,
                  remove_tx_le s h,
                  time_out_all_le fuel name (remove_tx codec s h).0
                      (note_origin h tx (push_events h (timed_out ∷ []) block))
                      (set_extend blocked (get_contracts_blocked_by_tx codec tx)),
                ))
        ]
      ]

  apply_change_le :
      (bth : TxHash) (name : ContractName) (change : ModifiedContractData) (p : Progress)
      → unsettled (apply_change codec bth name change p).0 ≤ unsettled p.0
  unfolding apply_change delete_contract
  apply_change_le bth name change (store, (block, next)) = elim (Option-cases change.contract) [
    | inl e ↦
        rw (e, apply_change)
          (time_out_all_le (length store.unsettled_transactions.map) name
            store.unsettled_transactions block [])
    | inr (c, e) ↦ rw (e, apply_change) (omega arith)
  ]

  force_proof_le :
      (bth h : TxHash) (proof : ProgramId × HyleOutput) (p : Progress)
      → unsettled (force_proof codec bth h proof p).0 ≤ unsettled p.0
  unfolding force_proof
  force_proof_le bth h proof (store, (block, forced)) =
      elim (Option-cases (lookup h store.unsettled_transactions.map)) [
        | inl e ↦ rw (e, force_proof) (omega arith)
        | inr (tx, e) ↦ elim (Option-cases (lookup proof.1.index tx.blobs)) [
          | inl f ↦ rw (e, f, force_proof) (omega arith)
          | inr (b, f) ↦
              rw (e, f, force_proof)
                (omega (
                  arith,
                  length-insert_known h (with_proof tx proof.1.index b proof)
                      store.unsettled_transactions.map (ap is_some e),
                ))
        ]
      ]

  force_proofs_le :
      (bth h : TxHash) (proofs : List (ProgramId × HyleOutput)) (p : Progress)
      → unsettled (force_proofs codec bth h proofs p).0 ≤ unsettled p.0
  unfolding force_proofs
  force_proofs_le bth h [] p = omega arith
  force_proofs_le bth h (proof ∷ proofs) p = omega (
    arith,
    force_proof_le bth h proof p,
    force_proofs_le bth h proofs (force_proof codec bth h proof p),
  )

  force_all_le :
      (bth : TxHash) (updates : Map TxHash (List (ProgramId × HyleOutput))) (p : Progress)
      → unsettled (force_all codec bth updates p).0 ≤ unsettled p.0
  unfolding force_all
  force_all_le bth [] p = omega arith
  force_all_le bth ((h, proofs) ∷ updates) p = omega (
    arith,
    force_proofs_le bth h proofs p,
    force_all_le bth updates (force_proofs codec bth h proofs p),
  )

  nuke_txs_le :
      (bth : TxHash) (txs : Map TxHash (List HyleOutput)) (p : Progress)
      → unsettled (nuke_txs codec bth txs p).0 ≤ unsettled p.0
  unfolding nuke_txs
  nuke_txs_le bth txs (store, (block, next)) =
      force_all_le bth (nuke_updates codec store txs) (store, (block, []))

  apply_changes_le :
      (bth : TxHash) (changes : ContractChanges) (p : Progress)
      → unsettled (apply_changes codec bth changes p).0 ≤ unsettled p.0
  unfolding apply_changes
  apply_changes_le bth [] p = omega arith
  apply_changes_le bth ((name, change) ∷ changes) p = omega (
    arith,
    apply_change_le bth name change p,
    apply_changes_le bth changes (apply_change codec bth name change p),
  )

  pub on_settled_le :
      (store : NodeStateStore) (block : Block) (bth : TxHash) (tx : UnsettledBlobTransaction)
      (result : Option SettlementResult)
      → unsettled (on_settled_blob_tx codec store block bth tx result).0 ≤ unsettled store
  unfolding on_settled_blob_tx
  on_settled_le store block bth tx none = omega arith
  on_settled_le store block bth tx (some r) =
      let p : Progress = before_changes codec store block bth tx r in
      omega (
        arith,
        apply_changes_le bth r.contract_changes p,
        nuke_txs_le bth (collect_nukes codec [] tx.blobs)
            (apply_changes codec bth r.contract_changes p),
      )
