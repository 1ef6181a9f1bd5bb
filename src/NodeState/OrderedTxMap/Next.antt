-- ===== src/NodeState/OrderedTxMap/Next.antt =====
-- Which transaction is next: the flag of `add`, the queues' fronts, and what `remove` frees.
use hyle.Prelude.{◌≡◌, refl, true, none, some, List, [], ◌∷◌, ◌++◌, arith, all, is_empty, front}
use hyle.Prelude.Key.{key_refl, key_eq, string_key, nat_key}
use hyle.Prelude.Map.{lookup}
use hyle.Prelude.Sets.{mem, count, is_key, count-front, set_remove-append_one}
use hyle.Model.{Codec, ContractName, TxHash, UnsettledBlobTransaction}
use hyle.NodeState.OrderedTxMap.{
  OrderedTxMap, push_all, get_next_unsettled_tx, get_contracts_blocked_by_tx, is_next_to_settle,
  get_for_settlement, add, remove_tx,
}
use hyle.NodeState.OrderedTxMap.Queues.{queue, alone-push_all}
use hyle.NodeState.OrderedTxMap.Coherent.{blocked-Distinct, touches, IsCoherent}
use hyle.NodeState.OrderedTxMap.Preserve.{
  lookup-add, order-add, lookup-remove_tx, order-remove_tx, add-IsCoherent,
}

-- The front of a queue is `h` after `h` was pushed, exactly when the queue was empty.
is_key-front-append :
    (h : TxHash) (q : List TxHash) → count h q ≡ 0 → is_key (front (q ++ h ∷ [])) h ≡ is_empty q
unfolding count
is_key-front-append h [] e = ground (arith, key_refl h)
is_key-front-append h (x ∷ q) e = ground arith

next-queue :
    (s : OrderedTxMap) (n : ContractName) → get_next_unsettled_tx s n ≡ front (queue s.tx_order n)
unfolding get_next_unsettled_tx
next-queue s n = ground arith

-- The two ways to ask whether a transaction is next agree.
pub get_for_settlement-is_next :
    (codec : Codec) (s : OrderedTxMap) (h : TxHash)
    → get_for_settlement codec s h
      ≡ (elim (lookup h s.map) [ some tx ↦ some (tx, is_next_to_settle codec s h) | none ↦ none ])
unfolding get_for_settlement is_next_to_settle
get_for_settlement-is_next codec s h = ground arith

all_fronts :
    (s t : OrderedTxMap) (h : TxHash) (cs ds : List ContractName)
    → ((n : ContractName) → mem n ds ≡ true → count h (queue s.tx_order n) ≡ 0)
    → ((n : ContractName) → mem n ds ≡ true → queue t.tx_order n ≡ queue s.tx_order n ++ h ∷ [])
    → ((n : ContractName) → mem n cs ≡ true → mem n ds ≡ true)
    → all (λ n. is_key (get_next_unsettled_tx t n) h) cs
      ≡ all (λ n. is_empty (queue s.tx_order n)) cs
unfolding mem
all_fronts s t h [] ds fresh pushed sub = refl
all_fronts s t h (c ∷ cs) ds fresh pushed sub = ground (
  arith,
  all_fronts s t h cs ds fresh pushed (λ n m. sub n (ground arith)),
  fresh c (sub c (ground (arith, key_refl c))),
  pushed c (sub c (ground (arith, key_refl c))),
  next-queue t c,
  is_key-front-append h (queue s.tx_order c),
)

module _ (codec : Codec) where
  -- On a coherent map, the flag that `add` returns for a new transaction says whether that
  -- transaction is next to settle for every contract that it touches.
  pub add-is_next :
      (s : OrderedTxMap) (tx : UnsettledBlobTransaction)
      → IsCoherent codec s
      → lookup tx.hash s.map ≡ none
      → (add codec s tx).1 ≡ some (is_next_to_settle codec (add codec s tx).0 tx.hash)
  unfolding is_next_to_settle
  add-is_next s tx w e =
      let bs = get_contracts_blocked_by_tx codec tx in
      let fronts =
        all_fronts s (add codec s tx).0 tx.hash bs bs (λ n m. ground (arith, w.queued n tx.hash))
          (λ n m. ground (arith, order-add codec s tx n)) (λ n m. m) in
      let flag : (add codec s tx).1 ≡ some (push_all tx.hash s.tx_order true bs).1 =
        (unfold add in rw e) in
      ground (
        arith,
        fronts,
        flag,
        lookup-add codec s tx tx.hash,
        key_refl tx.hash,
        alone-push_all tx.hash s.tx_order true bs (blocked-Distinct codec tx),
      )

  -- The transaction at the front of a queue is known, and it touches that contract.
  pub next_is_known :
      (s : OrderedTxMap) (n : ContractName) (h : TxHash)
      → IsCoherent codec s
      → get_next_unsettled_tx s n ≡ some h
      → touches codec (lookup h s.map) n ≡ true
  next_is_known s n h w e =
      ground (arith, w.queued n h, next-queue s n, count-front h (queue s.tx_order n))

  -- Removing the transaction that was just added gives back every entry of both fields.
  pub remove_tx-add :
      (s : OrderedTxMap) (tx : UnsettledBlobTransaction) (h : TxHash) (n : ContractName)
      → IsCoherent codec s
      → lookup tx.hash s.map ≡ none
      → (lookup h (remove_tx codec (add codec s tx).0 tx.hash).0.map ≡ lookup h s.map)
        × (lookup n (remove_tx codec (add codec s tx).0 tx.hash).0.tx_order ≡ lookup n s.tx_order)
  remove_tx-add s tx h n w e = (
    ground (
      arith,
      lookup-remove_tx codec (add codec s tx).0 tx.hash h,
      lookup-add codec s tx h,
      key_eq tx.hash h,
    ),
    ground (
      arith,
      order-remove_tx codec (add codec s tx).0 tx.hash n (add-IsCoherent codec s tx w),
      lookup-add codec s tx tx.hash,
      key_refl tx.hash,
      order-add codec s tx n,
      w.queued n tx.hash,
      w.no_empty n,
      set_remove-append_one tx.hash (queue s.tx_order n),
    ),
  )

  -- Adding a transaction never takes the front of a queue from another one.
  pub next-add :
      (s : OrderedTxMap) (tx : UnsettledBlobTransaction) (n : ContractName) (h : TxHash)
      → lookup tx.hash s.map ≡ none
      → get_next_unsettled_tx s n ≡ some h
      → get_next_unsettled_tx (add codec s tx).0 n ≡ some h
  next-add s tx n h e f =
      ground (arith, order-add codec s tx n, next-queue s n, next-queue (add codec s tx).0 n)
