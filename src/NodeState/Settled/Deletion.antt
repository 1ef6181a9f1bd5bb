-- ===== src/NodeState/Settled/Deletion.antt =====
-- The deletion of a contract: no unsettled transaction touches it afterwards.
use hyle.Prelude.{
  ◌≡◌, refl, ℕ, zero, suc, ◌≤◌, ◌<◌, true, false, none, List, [], ◌∷◌, length, Option-cases, inl,
  inr, arith, is_some, front,
}
use hyle.Prelude.Key.{string_key, nat_key}
use hyle.Prelude.Map.{lookup, lookup-remove_self}
use hyle.Prelude.Sizes.{length-remove_lt}
use hyle.Prelude.Sets.{set_extend, count}
use hyle.Model.{Codec, ContractName, TxHash}
use hyle.NodeState.OrderedTxMap.{
  OrderedTxMap, remove_tx, get_next_unsettled_tx, get_contracts_blocked_by_tx,
}
use hyle.NodeState.OrderedTxMap.Coherent.{IsCoherent, touches}
use hyle.NodeState.OrderedTxMap.Preserve.{remove_tx-IsCoherent}
use hyle.NodeState.OrderedTxMap.Next.{next_is_known}
use hyle.NodeState.Block.{Block, timed_out, note_origin, push_events}
use hyle.NodeState.ContractUpdates.{Progress, time_out_all, delete_contract}
use hyle.NodeState.Settled.Coherence.{StoreIsCoherent, time_out_all-IsCoherent}

module _ (codec : Codec) where
  known_removed :
      (s : OrderedTxMap) (h : TxHash) (n : ContractName)
      → touches codec (lookup h s.map) n ≡ true
      → (is_some (remove_tx codec s h).1 ≡ true)
        × (length (remove_tx codec s h).0.map < length s.map)
  unfolding remove_tx
  known_removed s h n t = ground (arith, length-remove_lt h s.map)

  queue_drained :
      (fuel : ℕ) (name : ContractName) (s : OrderedTxMap) (block : Block)
      (blocked : List ContractName)
      → IsCoherent codec s
      → length s.map ≤ fuel
      → get_next_unsettled_tx (time_out_all codec fuel name s block blocked).0 name ≡ none
  unfolding time_out_all
  queue_drained zero name s block blocked w enough =
      elim (Option-cases (get_next_unsettled_tx s name)) [
        | inl e ↦ e
        | inr (h, e) ↦
            absurd (omega (arith, known_removed s h name (next_is_known codec s name h w e)))
      ]
  queue_drained (suc fuel) name s block blocked w enough =
      elim (Option-cases (get_next_unsettled_tx s name)) [
        | inl e ↦ rw (e, time_out_all) e
        | inr (h, e) ↦ elim (Option-cases (remove_tx codec s h).1) [
          | inl f ↦
              absurd (ground (arith, known_removed s h name (next_is_known codec s name h w e)))
          | inr (tx, f) ↦
              rw (e, f, time_out_all)
                (queue_drained fuel name (remove_tx codec s h).0
                  (note_origin h tx (push_events h (timed_out ∷ []) block))
                  (set_extend blocked (get_contracts_blocked_by_tx codec tx))
                  (remove_tx-IsCoherent codec s h w)
                  (omega (arith, known_removed s h name (next_is_known codec s name h w e))))
        ]
      ]

  count_of_no_front : (h : TxHash) (q : List TxHash) → front q ≡ none → count h q ≡ 0
  unfolding count
  count_of_no_front h [] e = refl
  count_of_no_front h (x ∷ q) e = absurd (ground arith)

  no_next_untouched :
      (s : OrderedTxMap) (n : ContractName) (h : TxHash)
      → IsCoherent codec s
      → get_next_unsettled_tx s n ≡ none
      → touches codec (lookup h s.map) n ≡ false
  unfolding get_next_unsettled_tx
  no_next_untouched s n h w e = elim (Option-cases (lookup n s.tx_order)) [
    | inl f ↦ ground (arith, w.queued n h, count_of_no_front h [])
    | inr (q, f) ↦ ground (arith, w.queued n h, count_of_no_front h q)
  ]

  -- The deletion of a contract, where the unsettled transactions are coherent, removes the contract,
  -- and no transaction that stays unsettled touches it.
  pub deletion_is_complete :
      (bth : TxHash) (name : ContractName) (p : Progress) (h : TxHash)
      → StoreIsCoherent codec p.0
      → (lookup name (delete_contract codec bth name p).0.contracts ≡ none)
        × (touches codec
              (lookup h (delete_contract codec bth name p).0.unsettled_transactions.map)
              name
            ≡ false)
  unfolding delete_contract
  deletion_is_complete bth name (store, (block, next)) h w = (
    lookup-remove_self name store.contracts,
    no_next_untouched _ name h
        (time_out_all-IsCoherent codec (length store.unsettled_transactions.map) name
          store.unsettled_transactions block [] w)
        (queue_drained (length store.unsettled_transactions.map) name store.unsettled_transactions
          block [] w (omega arith)),
  )
