-- ===== src/NodeState/OrderedTxMap/Preserve.antt =====
-- `add` and `remove` keep the two fields of `OrderedTxMap` coherent.
use hyle.Prelude.{
  ◌≡◌, refl, ◌∙◌, true, none, some, [], ◌∷◌, ◌++◌, arith, if◌then◌else◌, inl, inr, Option-cases,
}
use hyle.Prelude.Key.{◌==◌, key_eq, string_key, nat_key}
use hyle.Prelude.Map.{lookup, lookup-insert, lookup-remove}
use hyle.Prelude.Sets.{mem, set_remove, count, count-append_one, count-set_remove}
use hyle.Model.{Codec, ContractName, TxHash, UnsettledBlobTransaction}
use hyle.NodeState.OrderedTxMap.{
  OrderedTxMap, empty_map, get_contracts_blocked_by_tx, add, remove_tx,
}
use hyle.NodeState.OrderedTxMap.Queues.{queue, entry, lookup-push_all, lookup-retain_all}
use hyle.NodeState.OrderedTxMap.Coherent.{blocked-Distinct, touches, IsCoherent}

module _ (codec : Codec) where
  pub empty-IsCoherent : IsCoherent codec empty_map
  unfolding lookup count
  empty-IsCoherent = record {
    keyed = λ h tx e. ground arith;
    queued = λ n h. refl;
    no_empty = λ n e. ground arith;
  }

  -- What `add` leaves in the map and in the queues, when the hash is new.
  pub lookup-add :
      (s : OrderedTxMap) (tx : UnsettledBlobTransaction) (h : TxHash)
      → lookup tx.hash s.map ≡ none
      → lookup h (add codec s tx).0.map ≡ (if tx.hash == h then some tx else lookup h s.map)
  unfolding add
  lookup-add s tx h e = ground (arith, lookup-insert tx.hash h tx s.map)

  pub order-add :
      (s : OrderedTxMap) (tx : UnsettledBlobTransaction) (n : ContractName)
      → lookup tx.hash s.map ≡ none
      → lookup n (add codec s tx).0.tx_order ≡ (
          if mem n (get_contracts_blocked_by_tx codec tx)
          then some (queue s.tx_order n ++ tx.hash ∷ [])
          else lookup n s.tx_order)
  unfolding add
  order-add s tx n e = rw e (
      lookup-push_all tx.hash s.tx_order true (get_contracts_blocked_by_tx codec tx) n
        (blocked-Distinct codec tx))

  add_new-IsCoherent :
      (s : OrderedTxMap) (tx : UnsettledBlobTransaction)
      → lookup tx.hash s.map ≡ none
      → IsCoherent codec s
      → IsCoherent codec (add codec s tx).0
  add_new-IsCoherent s tx e w = record {
    keyed = λ h t p. ground (arith, lookup-add s tx h, w.keyed h t, key_eq tx.hash h);
    queued = λ n h. ground (
      arith,
      lookup-add s tx h,
      order-add s tx n,
      w.queued n h,
      count-append_one h tx.hash (queue s.tx_order n),
      key_eq tx.hash h,
    );
    no_empty = λ n p. ground (arith, order-add s tx n, w.no_empty n);
  }

  -- A map stays coherent under `add`, also when the transaction was there already.
  pub add-IsCoherent :
      (s : OrderedTxMap) (tx : UnsettledBlobTransaction)
      → IsCoherent codec s
      → IsCoherent codec (add codec s tx).0
  unfolding add
  add-IsCoherent s tx w = elim (Option-cases (lookup tx.hash s.map)) [
    | inl e ↦ add_new-IsCoherent s tx e w
    | inr (old, e) ↦ rw e w
  ]

  pub lookup-remove_tx :
      (s : OrderedTxMap) (h h' : TxHash)
      → lookup h' (remove_tx codec s h).0.map ≡ (if h == h' then none else lookup h' s.map)
  unfolding remove_tx
  lookup-remove_tx s h h' = ground (arith, lookup-remove h h' s.map, key_eq h h')

  pub order-remove_tx :
      (s : OrderedTxMap) (h : TxHash) (n : ContractName)
      → IsCoherent codec s
      → lookup n (remove_tx codec s h).0.tx_order ≡ (
          if touches codec (lookup h s.map) n
          then entry (set_remove h (queue s.tx_order n))
          else lookup n s.tx_order)
  unfolding remove_tx
  order-remove_tx s h n w = elim (Option-cases (lookup h s.map)) [
    | inl e ↦ rw (e, remove_tx)
    | inr (tx, e) ↦
        rw (e, remove_tx)
          (lookup-retain_all tx.hash s.tx_order (get_contracts_blocked_by_tx codec tx) n
              (blocked-Distinct codec tx) (w.no_empty n)
            ∙ ground (arith, w.keyed h tx e))
  ]

  -- A map stays coherent under `remove`.
  pub remove_tx-IsCoherent :
      (s : OrderedTxMap) (h : TxHash)
      → IsCoherent codec s
      → IsCoherent codec (remove_tx codec s h).0
  remove_tx-IsCoherent s h w = record {
    keyed = λ h' t p. ground (arith, lookup-remove_tx s h h', w.keyed h' t);
    queued = λ n h'. ground (
      arith,
      lookup-remove_tx s h h',
      order-remove_tx s h n w,
      w.queued n h',
      w.queued n h,
      count-set_remove h h' (queue s.tx_order n),
      key_eq h h',
    );
    no_empty = λ n p. ground (arith, order-remove_tx s h n w, w.no_empty n);
  }
