-- ===== src/NodeState/UntilDone.antt =====
-- crates/hyle-modules/src/node_state.rs: `settle_txs_until_done`. Each turn of the loop takes the
-- first transaction of a set: one that is not settled leaves the set smaller, one that is settled
-- leaves fewer unsettled transactions. The fuel counts the settlements.
pub mod Fuel
pub mod Coherence
use hyle.Prelude.{
  ℕ, zero, suc, ◌≡◌, Bool, true, false, Option, none, some, List, [], ◌∷◌, ◌++◌, length, Result, ok,
  err,
}
use hyle.Prelude.Key.{string_key}
use hyle.Prelude.Sets.{btree_insert, btree_append}
use hyle.Model.{Codec, TxHash}
use hyle.NodeState.Block.{Block, SettleError, failed_to_settle, push_events, touch_origin}
use hyle.NodeState.Store.{NodeStateStore, SettledTxOutput, try_to_settle_blob_tx}
use hyle.NodeState.Settled.{on_settled_blob_tx}
use hyle.NodeState.ContractUpdates.{Progress}

module _ (codec : Codec) where
  -- One turn: what is left to do, or the transaction is not settled.
  abbrev pub Turn : Type 0
  Turn = NodeStateStore × (Block × Option (List TxHash))

  -- The two arms of the `match`.
  unfoldable pub follow_up :
      TxHash → Block → Result SettleError SettledTxOutput × NodeStateStore → Turn
  follow_up h block (ok output, store) =
      let (store', (block', next)) =
        on_settled_blob_tx codec store block h output.tx output.result in
      (store', (block', some next))
  follow_up h block (err e, store) = (store, (push_events h (failed_to_settle e ∷ []) block, none))

  unfoldable pub turn : NodeStateStore → Block → TxHash → Turn
  unfolding follow_up
  turn store block h =
      let (block', tried) =
        try_to_settle_blob_tx codec store (touch_origin h (push_events h [] block)) h in
      follow_up h block' tried

  -- `todo` is in order. No result: the fuel is used up.
  unfoldable pub settle_loop :
      ℕ → NodeStateStore → Block → List TxHash → List TxHash → Option Progress
  unfolding turn
  settle_loop fuel store block unsettlable [] = some (store, (block, unsettlable))
  settle_loop zero store block unsettlable (h ∷ todo) =
      let (store', (block', next)) = turn store block h in
      elim next [
        | none ↦ settle_loop zero store' block' (btree_insert h unsettlable) todo
        | some txs ↦ none
      ]
  settle_loop (suc fuel) store block unsettlable (h ∷ todo) =
      let (store', (block', next)) = turn store block h in
      elim next [
        | none ↦ settle_loop (suc fuel) store' block' (btree_insert h unsettlable) todo
        | some txs ↦ settle_loop fuel store' block' unsettlable (btree_append todo txs)
      ]

  unfoldable pub settle_txs_until_done : NodeStateStore → Block → List TxHash → Option Progress
  unfolding settle_loop
  settle_txs_until_done store block todo =
      settle_loop (length store.unsettled_transactions.map) store block [] todo
