-- ===== src/NodeState/Settled/Coherence.antt =====
-- Settling a transaction keeps the unsettled transactions and their queues coherent.
use hyle.Prelude.{
  refl, ℕ, zero, suc, Option, none, some, List, [], ◌∷◌, length, Option-cases, Bool-cases, inl, inr,
}
use hyle.Prelude.Key.{string_key, nat_key}
use hyle.Prelude.Map.{Map, lookup}
use hyle.Prelude.Sets.{set_extend}
use hyle.Model.{Codec, ContractName, HyleOutput, ProgramId, TxHash, UnsettledBlobTransaction}
use hyle.NodeState.OrderedTxMap.{
  OrderedTxMap, remove_tx, get_next_unsettled_tx, get_contracts_blocked_by_tx, is_next_to_settle,
}
use hyle.NodeState.OrderedTxMap.Coherent.{IsCoherent}
use hyle.NodeState.OrderedTxMap.Preserve.{remove_tx-IsCoherent}
use hyle.NodeState.OrderedTxMap.Replace.{blocked-insert, replace-IsCoherent}
use hyle.NodeState.Changes.{ContractChanges, ModifiedContractData}
use hyle.NodeState.Settle.{Outcome, SettlementResult, not_ready, failed, settled}
use hyle.NodeState.Block.{Block, timed_out, note_origin, push_events}
use hyle.NodeState.Store.{
  NodeStateStore, all_registered, conclude, verdict_of, try_to_settle_blob_tx,
}
use hyle.NodeState.Settled.{before_changes, collect_nukes, on_settled_blob_tx}
use hyle.NodeState.ContractUpdates.{
  Progress, time_out_all, delete_contract, apply_change, apply_changes,
}
use hyle.NodeState.Nukes.{nuke_updates, with_proof, force_proof, force_proofs, force_all, nuke_txs}

module _ (codec : Codec) where
  -- The unsettled transactions of the store are coherent.
  abbrev pub StoreIsCoherent : NodeStateStore → Type 0
  StoreIsCoherent store = IsCoherent codec store.unsettled_transactions

  pub time_out_all-IsCoherent :
      (fuel : ℕ) (name : ContractName) (s : OrderedTxMap) (block : Block)
      (blocked : List ContractName)
      → IsCoherent codec s
      → IsCoherent codec (time_out_all codec fuel name s block blocked).0
  unfolding time_out_all
  time_out_all-IsCoherent zero name s block blocked w = w
  time_out_all-IsCoherent (suc fuel) name s block blocked w =
      elim (Option-cases (get_next_unsettled_tx s name)) [
        | inl e ↦ rw (e, time_out_all) w
        | inr (h, e) ↦ elim (Option-cases (remove_tx codec s h).1) [
          | inl f ↦
              rw (e, f, time_out_all)
                (time_out_all-IsCoherent fuel name (remove_tx codec s h).0 block blocked
                  (remove_tx-IsCoherent codec s h w))
          | inr (tx, f) ↦
              rw (e, f, time_out_all)
                (time_out_all-IsCoherent fuel name (remove_tx codec s h).0
                  (note_origin h tx (push_events h (timed_out ∷ []) block))
                  (set_extend blocked (get_contracts_blocked_by_tx codec tx))
                  (remove_tx-IsCoherent codec s h w))
        ]
      ]

  apply_change-IsCoherent :
      (bth : TxHash) (name : ContractName) (change : ModifiedContractData) (p : Progress)
      → StoreIsCoherent p.0
      → StoreIsCoherent (apply_change codec bth name change p).0
  unfolding apply_change delete_contract
  apply_change-IsCoherent bth name change (store, (block, next)) w =
      elim (Option-cases change.contract) [
        | inl e ↦
            rw (e, apply_change)
              (time_out_all-IsCoherent (length store.unsettled_transactions.map) name
                store.unsettled_transactions block [] w)
        | inr (c, e) ↦ rw (e, apply_change) w
      ]

  apply_changes-IsCoherent :
      (bth : TxHash) (changes : ContractChanges) (p : Progress)
      → StoreIsCoherent p.0
      → StoreIsCoherent (apply_changes codec bth changes p).0
  unfolding apply_changes
  apply_changes-IsCoherent bth [] p w = w
  apply_changes-IsCoherent bth ((name, change) ∷ changes) p w =
      apply_changes-IsCoherent bth changes (apply_change codec bth name change p)
        (apply_change-IsCoherent bth name change p w)

  force_proof-IsCoherent :
      (bth h : TxHash) (proof : ProgramId × HyleOutput) (p : Progress)
      → StoreIsCoherent p.0
      → StoreIsCoherent (force_proof codec bth h proof p).0
  unfolding force_proof
  force_proof-IsCoherent bth h proof (store, (block, forced)) w =
      elim (Option-cases (lookup h store.unsettled_transactions.map)) [
        | inl e ↦ rw (e, force_proof) w
        | inr (tx, e) ↦ elim (Option-cases (lookup proof.1.index tx.blobs)) [
          | inl f ↦ rw (e, f, force_proof) w
          | inr (b, f) ↦
              rw (e, f, force_proof)
                (replace-IsCoherent codec store.unsettled_transactions h tx
                  (with_proof tx proof.1.index b proof) w e refl
                  (blocked-insert codec tx proof.1.index b _ f refl))
        ]
      ]

  force_proofs-IsCoherent :
      (bth h : TxHash) (proofs : List (ProgramId × HyleOutput)) (p : Progress)
      → StoreIsCoherent p.0
      → StoreIsCoherent (force_proofs codec bth h proofs p).0
  unfolding force_proofs
  force_proofs-IsCoherent bth h [] p w = w
  force_proofs-IsCoherent bth h (proof ∷ proofs) p w =
      force_proofs-IsCoherent bth h proofs (force_proof codec bth h proof p)
        (force_proof-IsCoherent bth h proof p w)

  force_all-IsCoherent :
      (bth : TxHash) (updates : Map TxHash (List (ProgramId × HyleOutput))) (p : Progress)
      → StoreIsCoherent p.0
      → StoreIsCoherent (force_all codec bth updates p).0
  unfolding force_all
  force_all-IsCoherent bth [] p w = w
  force_all-IsCoherent bth ((h, proofs) ∷ updates) p w =
      force_all-IsCoherent bth updates (force_proofs codec bth h proofs p)
        (force_proofs-IsCoherent bth h proofs p w)

  nuke_txs-IsCoherent :
      (bth : TxHash) (txs : Map TxHash (List HyleOutput)) (p : Progress)
      → StoreIsCoherent p.0
      → StoreIsCoherent (nuke_txs codec bth txs p).0
  unfolding nuke_txs
  nuke_txs-IsCoherent bth txs (store, (block, next)) w =
      force_all-IsCoherent bth (nuke_updates codec store txs) (store, (block, [])) w

  pub on_settled-IsCoherent :
      (store : NodeStateStore) (block : Block) (bth : TxHash) (tx : UnsettledBlobTransaction)
      (result : Option SettlementResult)
      → StoreIsCoherent store
      → StoreIsCoherent (on_settled_blob_tx codec store block bth tx result).0
  unfolding on_settled_blob_tx
  on_settled-IsCoherent store block bth tx none w = w
  on_settled-IsCoherent store block bth tx (some r) w =
      nuke_txs-IsCoherent bth (collect_nukes codec [] tx.blobs)
        (apply_changes codec bth r.contract_changes (before_changes codec store block bth tx r))
        (apply_changes-IsCoherent bth r.contract_changes (before_changes codec store block bth tx r)
          w)

  conclude-IsCoherent :
      (store : NodeStateStore) (h : TxHash) (tx : UnsettledBlobTransaction) (outcome : Outcome)
      → StoreIsCoherent store
      → StoreIsCoherent (conclude codec store h tx outcome).1
  unfolding conclude
  conclude-IsCoherent store h tx (log, not_ready) w = w
  conclude-IsCoherent store h tx (log, failed) w =
      remove_tx-IsCoherent codec store.unsettled_transactions h w
  conclude-IsCoherent store h tx (log, settled r) w =
      elim (Bool-cases (is_next_to_settle codec store.unsettled_transactions h)) [
        | inl e ↦ rw (e, conclude) (remove_tx-IsCoherent codec store.unsettled_transactions h w)
        | inr e ↦ rw (e, conclude) w
      ]

  pub try_to_settle-IsCoherent :
      (store : NodeStateStore) (block : Block) (h : TxHash)
      → StoreIsCoherent store
      → StoreIsCoherent (try_to_settle_blob_tx codec store block h).1.1
  unfolding try_to_settle_blob_tx
  try_to_settle-IsCoherent store block h w =
      elim (Option-cases (lookup h store.unsettled_transactions.map)) [
        | inl e ↦ rw (e, try_to_settle_blob_tx) w
        | inr (tx, e) ↦ elim (Bool-cases (all_registered codec store.contracts tx)) [
          | inl r ↦
              rw (e, r, try_to_settle_blob_tx)
                (conclude-IsCoherent store h tx (verdict_of codec store.contracts tx) w)
          | inr r ↦ rw (e, r, try_to_settle_blob_tx) w
        ]
      ]
