-- ===== src/NodeState/OrderedTxMap/Coherent.antt =====
-- The coherence of the two fields of `OrderedTxMap`, which the struct is there to guarantee: a
-- transaction stands once in the queue of each contract that it touches, and in no other queue.
use hyle.Prelude.{
  ◌≡◌, ◌≢◌, Bool, false, Option, none, some, List, [], ◌∷◌, if◌then◌else◌, inl, inr, Option-cases,
}
use hyle.Prelude.Key.{string_key, nat_key}
use hyle.Prelude.Map.{lookup, values}
use hyle.Prelude.Sets.{mem, count, Distinct, set_insert-Distinct}
use hyle.Model.{Blob, Codec, ContractName, TxHash, UnsettledBlobMetadata, UnsettledBlobTransaction}
use hyle.NodeState.OrderedTxMap.{
  OrderedTxMap, add_contracts, collect_contracts, get_contracts_blocked_by_tx,
}
use hyle.NodeState.OrderedTxMap.Queues.{queue}

module _ (codec : Codec) where
  add_contracts-Distinct :
      (names : List ContractName) (b : Blob)
      → Distinct names
      → Distinct (add_contracts codec names b)
  unfolding add_contracts
  add_contracts-Distinct names b d = elim (Option-cases (codec.register b.blob_data)) [
    | inl e ↦ elim (Option-cases (codec.delete b.blob_data)) [
      | inl e' ↦ rw (e, e', add_contracts) (set_insert-Distinct b.contract_name names d)
      | inr (a, e') ↦
          rw (e, e', add_contracts)
            (set_insert-Distinct a.contract_name _ (set_insert-Distinct b.contract_name names d))
    ]
    | inr (a, e) ↦
        rw (e, add_contracts)
          (set_insert-Distinct a.contract_name _ (set_insert-Distinct b.contract_name names d))
  ]

  collect_contracts-Distinct :
      (names : List ContractName) (bs : List UnsettledBlobMetadata)
      → Distinct names
      → Distinct (collect_contracts codec names bs)
  unfolding collect_contracts
  collect_contracts-Distinct names [] d = d
  collect_contracts-Distinct names (b ∷ bs) d =
      collect_contracts-Distinct (add_contracts codec names b.blob) bs
        (add_contracts-Distinct names b.blob d)

  pub blocked-Distinct :
      (tx : UnsettledBlobTransaction) → Distinct (get_contracts_blocked_by_tx codec tx)
  unfolding get_contracts_blocked_by_tx
  blocked-Distinct tx = collect_contracts-Distinct [] (values tx.blobs) tt

  -- Does the contract block on this transaction?
  abbrev pub touches : Option UnsettledBlobTransaction → ContractName → Bool
  touches none n = false
  touches (some tx) n = mem n (get_contracts_blocked_by_tx codec tx)

  pub record IsCoherent (s : OrderedTxMap) : Type 0 where
    pub keyed :
        (h : TxHash) (tx : UnsettledBlobTransaction) → lookup h s.map ≡ some tx → tx.hash ≡ h
    pub queued :
        (n : ContractName) (h : TxHash)
        → count h (queue s.tx_order n) ≡ (if touches (lookup h s.map) n then 1 else 0)
    pub no_empty : (n : ContractName) → lookup n s.tx_order ≢ some []
