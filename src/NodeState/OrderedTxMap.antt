-- ===== src/NodeState/OrderedTxMap.antt =====
-- crates/hyle-modules/src/node_state/ordered_tx_map.rs: the unsettled transactions, and for each
-- contract the queue of those that touch it.
pub mod Queues
pub mod Coherent
pub mod Preserve
pub mod Next
pub mod Replace
use hyle.Prelude.{
  ℕ, ◌+◌, ◌≡◌, Bool, true, false, ◌&&◌, Option, none, some, List, [], ◌∷◌, ◌++◌, nat_eq,
  if◌then◌else◌, length, front, all, is_empty, is_some,
}
use hyle.Prelude.Key.{◌==◌, string_key, nat_key}
use hyle.Prelude.Map.{Map, lookup, insert, remove, contains_key, get_or, values}
use hyle.Prelude.Sets.{mem, set_insert, set_remove, is_key, btree_insert}
use hyle.Model.{Blob, Codec, ContractName, TxHash, UnsettledBlobMetadata, UnsettledBlobTransaction}

abbrev pub TxOrder : Type 0
TxOrder = Map ContractName (List TxHash)

pub record OrderedTxMap : Type 0 where
  pub map : Map TxHash UnsettledBlobTransaction
  pub tx_order : TxOrder

-- `OrderedTxMap::default()`
abbrev pub empty_map : OrderedTxMap
empty_map = record { map = []; tx_order = [] }

-- The body of the loop of `add`: the queue of `contract`, and whether the transaction is alone in it.
unfoldable pub push_back : TxHash → TxOrder → ContractName → TxOrder × Bool
push_back h order contract = elim (lookup contract order) [
  | some queue ↦ (insert contract (queue ++ h ∷ []) order, nat_eq (length (queue ++ h ∷ [])) 1)
  | none ↦ (insert contract (h ∷ []) order, true)
]

unfoldable pub push_all : TxHash → TxOrder → Bool → List ContractName → TxOrder × Bool
push_all h order is_next [] = (order, is_next)
push_all h order is_next (contract ∷ contracts) =
    let (order', alone) = push_back h order contract in
    push_all h order' (alone && is_next) contracts

-- The body of the loop of `remove`: `retain`, and the entry goes when its queue is empty.
unfoldable pub retain_others : TxHash → TxOrder → ContractName → TxOrder
retain_others h order contract = elim (lookup contract order) [
  | some queue ↦
      let kept = set_remove h queue in
      if is_empty kept then remove contract order else insert contract kept order
  | none ↦ order
]

unfoldable pub retain_all : TxHash → TxOrder → List ContractName → TxOrder
retain_all h order [] = order
retain_all h order (contract ∷ contracts) = retain_all h (retain_others h order contract) contracts

unfoldable pub get_next_unsettled_tx : OrderedTxMap → ContractName → Option TxHash
get_next_unsettled_tx s contract = elim (lookup contract s.tx_order) [
  | some queue ↦ front queue
  | none ↦ none
]

unfoldable pub get_earliest_unsettled_height : OrderedTxMap → ContractName → Option ℕ
unfolding get_next_unsettled_tx
get_earliest_unsettled_height s contract = elim (get_next_unsettled_tx s contract) [
  | none ↦ none
  | some h ↦ elim (lookup h s.map) [ none ↦ none | some tx ↦ some tx.tx_context.block_height ]
]

module _ (codec : Codec) where
  -- The body of the loop over the blobs.
  unfoldable pub add_contracts : List ContractName → Blob → List ContractName
  add_contracts names blob =
      let names' = set_insert blob.contract_name names in
      elim (codec.register blob.blob_data) [
        | some action ↦ set_insert action.contract_name names'
        | none ↦ elim (codec.delete blob.blob_data) [
          | some action ↦ set_insert action.contract_name names'
          | none ↦ names'
        ]
      ]

  unfoldable pub collect_contracts :
      List ContractName → List UnsettledBlobMetadata → List ContractName
  collect_contracts names [] = names
  collect_contracts names (b ∷ bs) = collect_contracts (add_contracts names b.blob) bs

  unfoldable pub get_contracts_blocked_by_tx : UnsettledBlobTransaction → List ContractName
  get_contracts_blocked_by_tx tx = collect_contracts [] (values tx.blobs)

  -- Also the flag that `get_for_settlement` returns: that code is the same test once more.
  unfoldable pub is_next_to_settle : OrderedTxMap → TxHash → Bool
  is_next_to_settle s h = elim (lookup h s.map) [
    | some tx ↦
        all (λ contract. is_key (get_next_unsettled_tx s contract) h)
          (get_contracts_blocked_by_tx tx)
    | none ↦ false
  ]

  unfoldable pub get_for_settlement :
      OrderedTxMap → TxHash → Option (UnsettledBlobTransaction × Bool)
  unfolding get_next_unsettled_tx
  get_for_settlement s h = elim (lookup h s.map) [
    | some tx ↦ some (
      tx,
      all (λ contract. is_key (get_next_unsettled_tx s contract) h)
          (get_contracts_blocked_by_tx tx),
    )
    | none ↦ none
  ]

  unfoldable pub next_txs : OrderedTxMap → List TxHash → List ContractName → List TxHash
  next_txs s blocked [] = blocked
  next_txs s blocked (contract ∷ contracts) =
      next_txs s
        (elim (get_next_unsettled_tx s contract) [
          | some h ↦ btree_insert h blocked
          | none ↦ blocked
        ])
        contracts

  unfoldable pub get_next_txs_blocked_by_tx : OrderedTxMap → UnsettledBlobTransaction → List TxHash
  unfolding next_txs
  get_next_txs_blocked_by_tx s tx = next_txs s [] (get_contracts_blocked_by_tx tx)

  unfoldable pub add : OrderedTxMap → UnsettledBlobTransaction → OrderedTxMap × Option Bool
  unfolding push_all push_back
  add s tx =
      if contains_key tx.hash s.map
      then (s, none)
      else (let (order, is_next) =
            push_all tx.hash s.tx_order true (get_contracts_blocked_by_tx tx) in
          (record { map = insert tx.hash tx s.map; tx_order = order }, some is_next))

  unfoldable pub remove_tx : OrderedTxMap → TxHash → OrderedTxMap × Option UnsettledBlobTransaction
  unfolding retain_all retain_others
  remove_tx s h = elim (lookup h s.map) [
    | some tx ↦ (
      record {
        map = remove h s.map;
        tx_order = retain_all tx.hash s.tx_order (get_contracts_blocked_by_tx tx);
      },
      some tx,
    )
    | none ↦ (s, none)
  ]
