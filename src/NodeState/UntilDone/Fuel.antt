-- ===== src/NodeState/UntilDone/Fuel.antt =====
-- The loop of settlements ends: as many settlements as there are unsettled transactions are enough.
use hyle.Prelude.{
  ◌≡◌, refl, ℕ, zero, suc, ◌≤◌, ◌+◌, Option, none, some, List, [], ◌∷◌, arith, is_some, true,
  Option-cases, Bool-cases, inl, inr, ap, Result, ok, err,
}
use hyle.Prelude.Key.{string_key}
use hyle.Prelude.Map.{lookup}
use hyle.Prelude.Sizes.{length-remove_lt}
use hyle.Prelude.Sets.{btree_insert, btree_append}
use hyle.Model.{Codec, TxHash, UnsettledBlobTransaction}
use hyle.NodeState.OrderedTxMap.{remove_tx}
use hyle.NodeState.Settle.{Outcome, not_ready, failed, settled}
use hyle.NodeState.Block.{Block, SettleError, touch_origin, push_events}
use hyle.NodeState.Store.{
  NodeStateStore, SettledTxOutput, all_registered, conclude, verdict_of, try_to_settle_blob_tx,
}
use hyle.NodeState.ContractUpdates.{Progress}
use hyle.NodeState.Settled.Fewer.{unsettled, on_settled_le}
use hyle.NodeState.UntilDone.{follow_up, turn, settle_loop, settle_txs_until_done}

-- A settlement takes one transaction, and anything else none.
abbrev taken : Result SettleError SettledTxOutput → ℕ
taken (ok output) = 1
taken (err e) = 0

module _ (codec : Codec) where
  conclude_takes :
      (store : NodeStateStore) (h : TxHash) (tx : UnsettledBlobTransaction) (outcome : Outcome)
      → lookup h store.unsettled_transactions.map ≡ some tx
      → unsettled (conclude codec store h tx outcome).1
          + taken (conclude codec store h tx outcome).0
        ≤ unsettled store
  unfolding conclude remove_tx
  conclude_takes store h tx (log, not_ready) e = omega arith
  conclude_takes store h tx (log, failed) e =
      ground (arith, length-remove_lt h store.unsettled_transactions.map (ap is_some e))
  conclude_takes store h tx (log, settled r) e =
      ground (arith, length-remove_lt h store.unsettled_transactions.map (ap is_some e))

  try_takes :
      (store : NodeStateStore) (block : Block) (h : TxHash)
      → unsettled (try_to_settle_blob_tx codec store block h).1.1
          + taken (try_to_settle_blob_tx codec store block h).1.0
        ≤ unsettled store
  unfolding try_to_settle_blob_tx
  try_takes store block h = elim (Option-cases (lookup h store.unsettled_transactions.map)) [
    | inl e ↦ rw (e, try_to_settle_blob_tx) (omega arith)
    | inr (tx, e) ↦ elim (Bool-cases (all_registered codec store.contracts tx)) [
      | inl r ↦
          rw (e, r, try_to_settle_blob_tx)
            (conclude_takes store h tx (verdict_of codec store.contracts tx) e)
      | inr r ↦ rw (e, r, try_to_settle_blob_tx) (omega arith)
    ]
  ]

  abbrev gone : Option (List TxHash) → ℕ
  gone none = 0
  gone (some txs) = 1

  follow_up_takes :
      (h : TxHash) (block : Block) (tried : Result SettleError SettledTxOutput × NodeStateStore)
      → unsettled (follow_up codec h block tried).0 + gone (follow_up codec h block tried).1.1
        ≤ unsettled tried.1 + taken tried.0
  unfolding follow_up
  follow_up_takes h block (ok output, store) =
      omega (arith, on_settled_le codec store block h output.tx output.result)
  follow_up_takes h block (err e, store) = omega arith

  turn_takes :
      (store : NodeStateStore) (block : Block) (h : TxHash)
      → unsettled (turn codec store block h).0 + gone (turn codec store block h).1.1
        ≤ unsettled store
  unfolding turn
  turn_takes store block h =
      let start : Block = touch_origin h (push_events h [] block) in
      omega (
        arith,
        try_takes store start h,
        follow_up_takes h (try_to_settle_blob_tx codec store start h).0
            (try_to_settle_blob_tx codec store start h).1,
      )

  loop_ends :
      (fuel : ℕ) (store : NodeStateStore) (block : Block) (unsettlable todo : List TxHash)
      → unsettled store ≤ fuel
      → is_some (settle_loop codec fuel store block unsettlable todo) ≡ true
  unfolding settle_loop
  loop_ends fuel store block unsettlable [] enough = refl
  loop_ends zero store block unsettlable (h ∷ todo) enough =
      elim (Option-cases (turn codec store block h).1.1) [
        | inl e ↦
            rw (e, settle_loop)
              (loop_ends zero (turn codec store block h).0 (turn codec store block h).1.0
                (btree_insert h unsettlable) todo (omega (arith, turn_takes store block h)))
        | inr (txs, e) ↦ absurd (omega (arith, turn_takes store block h, ap gone e))
      ]
  loop_ends (suc fuel) store block unsettlable (h ∷ todo) enough =
      elim (Option-cases (turn codec store block h).1.1) [
        | inl e ↦
            rw (e, settle_loop)
              (loop_ends (suc fuel) (turn codec store block h).0 (turn codec store block h).1.0
                (btree_insert h unsettlable) todo (omega (arith, turn_takes store block h)))
        | inr (txs, e) ↦
            rw (e, settle_loop)
              (loop_ends fuel (turn codec store block h).0 (turn codec store block h).1.0
                unsettlable (btree_append todo txs)
                (omega (arith, turn_takes store block h, ap gone e)))
      ]

  -- The loop ends with a result, on every store, block and set of transactions.
  pub settle_txs_until_done_ends :
      (store : NodeStateStore) (block : Block) (todo : List TxHash)
      → (p : Progress) × (settle_txs_until_done codec store block todo ≡ some p)
  unfolding settle_txs_until_done
  settle_txs_until_done_ends store block todo =
      elim (Option-cases (settle_loop codec (unsettled store) store block [] todo)) [
        | inr r ↦ r
        | inl e ↦
            absurd (ground (arith, loop_ends (unsettled store) store block [] todo (omega arith)))
      ]
