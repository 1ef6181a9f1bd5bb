-- ===== src/NodeState/UntilDone/Coherence.antt =====
-- The loop of settlements keeps the unsettled transactions coherent.
use hyle.Prelude.{
  ◌≡◌, subst, ℕ, zero, suc, Option, none, some, List, [], ◌∷◌, Option-cases, inl, inr, Result, ok,
  err,
}
use hyle.Prelude.Key.{string_key}
use hyle.Prelude.Sets.{btree_insert, btree_append}
use hyle.Model.{Codec, TxHash}
use hyle.NodeState.Block.{Block, SettleError, touch_origin, push_events}
use hyle.NodeState.Store.{NodeStateStore, SettledTxOutput, try_to_settle_blob_tx}
use hyle.NodeState.ContractUpdates.{Progress}
use hyle.NodeState.Settled.Coherence.{
  StoreIsCoherent, on_settled-IsCoherent, try_to_settle-IsCoherent,
}
use hyle.NodeState.UntilDone.{follow_up, turn, settle_loop, settle_txs_until_done}

module _ (codec : Codec) where
  follow_up-IsCoherent :
      (h : TxHash) (block : Block) (tried : Result SettleError SettledTxOutput × NodeStateStore)
      → StoreIsCoherent codec tried.1
      → StoreIsCoherent codec (follow_up codec h block tried).0
  unfolding follow_up
  follow_up-IsCoherent h block (ok output, store) w =
      on_settled-IsCoherent codec store block h output.tx output.result w
  follow_up-IsCoherent h block (err e, store) w = w

  turn-IsCoherent :
      (store : NodeStateStore) (block : Block) (h : TxHash)
      → StoreIsCoherent codec store
      → StoreIsCoherent codec (turn codec store block h).0
  unfolding turn
  turn-IsCoherent store block h w =
      let start : Block = touch_origin h (push_events h [] block) in
      follow_up-IsCoherent h (try_to_settle_blob_tx codec store start h).0
        (try_to_settle_blob_tx codec store start h).1
        (try_to_settle-IsCoherent codec store start h w)

  -- The store of a result of the loop, where there is one.
  abbrev EndsCoherent : Option Progress → Type 0
  EndsCoherent none = Unit {0}
  EndsCoherent (some p) = StoreIsCoherent codec p.0

  settle_loop-EndsCoherent :
      (fuel : ℕ) (store : NodeStateStore) (block : Block) (unsettlable todo : List TxHash)
      → StoreIsCoherent codec store
      → EndsCoherent (settle_loop codec fuel store block unsettlable todo)
  unfolding settle_loop
  settle_loop-EndsCoherent fuel store block unsettlable [] w = w
  settle_loop-EndsCoherent zero store block unsettlable (h ∷ todo) w =
      elim (Option-cases (turn codec store block h).1.1) [
        | inl e ↦
            rw (e, settle_loop)
              (settle_loop-EndsCoherent zero (turn codec store block h).0
                (turn codec store block h).1.0 (btree_insert h unsettlable) todo
                (turn-IsCoherent store block h w))
        | inr (txs, e) ↦ rw (e, settle_loop) tt
      ]
  settle_loop-EndsCoherent (suc fuel) store block unsettlable (h ∷ todo) w =
      elim (Option-cases (turn codec store block h).1.1) [
        | inl e ↦
            rw (e, settle_loop)
              (settle_loop-EndsCoherent (suc fuel) (turn codec store block h).0
                (turn codec store block h).1.0 (btree_insert h unsettlable) todo
                (turn-IsCoherent store block h w))
        | inr (txs, e) ↦
            rw (e, settle_loop)
              (settle_loop-EndsCoherent fuel (turn codec store block h).0
                (turn codec store block h).1.0 unsettlable (btree_append todo txs)
                (turn-IsCoherent store block h w))
      ]

  pub settle_txs-IsCoherent :
      (store : NodeStateStore) (block : Block) (todo : List TxHash) (p : Progress)
      → StoreIsCoherent codec store
      → settle_txs_until_done codec store block todo ≡ some p
      → StoreIsCoherent codec p.0
  unfolding settle_txs_until_done
  settle_txs-IsCoherent store block todo p w e =
      subst EndsCoherent e (settle_loop-EndsCoherent _ store block [] todo w)
