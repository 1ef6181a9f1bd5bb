-- ===== src/NodeState/OrderedTxMap/Replace.antt =====
-- A transaction that gets another proof stays in the same queues.
use hyle.Prelude.{
  ◌≡◌, refl, sym, ap, ◌∙◌, true, false, some, List, [], ◌∷◌, arith, inl, inr, Bool-cases,
}
use hyle.Prelude.Key.{◌==◌, nat_key, string_key, key_eq}
use hyle.Prelude.Map.{Map, lookup, insert, replace, values, lookup-insert}
use hyle.Model.{
  BlobIndex, Codec, ContractName, TxHash, UnsettledBlobMetadata, UnsettledBlobTransaction,
}
use hyle.NodeState.OrderedTxMap.{
  OrderedTxMap, add_contracts, collect_contracts, get_contracts_blocked_by_tx,
}
use hyle.NodeState.OrderedTxMap.Coherent.{IsCoherent}

module _ (codec : Codec) where
  first_found :
      (m : Map BlobIndex UnsettledBlobMetadata) (i j : BlobIndex) (b c : UnsettledBlobMetadata)
      → (j == i) ≡ true
      → lookup i ((j, c) ∷ m) ≡ some b
      → c ≡ b
  unfolding lookup
  first_found m i j b c k e = ground arith

  later_found :
      (m : Map BlobIndex UnsettledBlobMetadata) (i j : BlobIndex) (b c : UnsettledBlobMetadata)
      → (j == i) ≡ false
      → lookup i ((j, c) ∷ m) ≡ some b
      → lookup i m ≡ some b
  unfolding lookup
  later_found m i j b c k e = ground arith

  collect-replace :
      (names : List ContractName) (i : BlobIndex) (b b' : UnsettledBlobMetadata)
      (m : Map BlobIndex UnsettledBlobMetadata)
      → lookup i m ≡ some b
      → b'.blob ≡ b.blob
      → collect_contracts codec names (values (replace i b' m))
        ≡ collect_contracts codec names (values m)
  unfolding collect_contracts lookup replace
  collect-replace names i b b' [] e same = refl
  collect-replace names i b b' ((j, c) ∷ m) e same = elim (Bool-cases (j == i)) [
    | inl k ↦
        rw (k, replace)
          (ap (λ x. collect_contracts codec (add_contracts codec names x) (values m))
            (same ∙ ap (λ x. x.blob) (sym (first_found m i j b c k e))))
    | inr k ↦
        rw (k, replace)
          (collect-replace (add_contracts codec names c.blob) i b b' m (later_found m i j b c k e)
            same)
  ]

  -- The contracts of a transaction do not change with the proofs of a blob.
  pub blocked-insert :
      (tx : UnsettledBlobTransaction) (i : BlobIndex) (b b' : UnsettledBlobMetadata)
      → lookup i tx.blobs ≡ some b
      → b'.blob ≡ b.blob
      → get_contracts_blocked_by_tx codec (record tx { blobs = insert i b' tx.blobs })
        ≡ get_contracts_blocked_by_tx codec tx
  unfolding get_contracts_blocked_by_tx insert
  blocked-insert tx i b b' e same = rw e (collect-replace [] i b b' tx.blobs e same)

  pub replace-IsCoherent :
      (s : OrderedTxMap) (h : TxHash) (tx tx' : UnsettledBlobTransaction)
      → IsCoherent codec s
      → lookup h s.map ≡ some tx
      → tx'.hash ≡ tx.hash
      → get_contracts_blocked_by_tx codec tx' ≡ get_contracts_blocked_by_tx codec tx
      → IsCoherent codec (record s { map = insert h tx' s.map })
  replace-IsCoherent s h tx tx' w e same blocked = record {
    keyed = λ h' t p.
        ground (arith, lookup-insert h h' tx' s.map, w.keyed h tx, key_eq h h', w.keyed h' t);
    queued = λ n h'. ground (arith, lookup-insert h h' tx' s.map, w.queued n h', key_eq h h');
    no_empty = w.no_empty;
  }
