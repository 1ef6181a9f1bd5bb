-- ===== src/NodeState/Store.antt =====
-- crates/hyle-modules/src/node_state.rs: the state of the node, and one attempt to settle a
-- transaction (`try_to_settle_blob_tx`).
pub mod Settling
use hyle.Prelude.{
  ℕ, String, ◌≡◌, Bool, true, false, not, ◌&&◌, Option, none, some, List, [], ◌∷◌, ◌++◌,
  if◌then◌else◌, all, any, map, Result, ok, err,
}
use hyle.Prelude.Key.{string_key, nat_key}
use hyle.Prelude.Map.{Map, lookup, insert, contains_key, values}
use hyle.Prelude.Sets.{mem}
use hyle.Model.{
  BlockHeight, Codec, Contract, ContractName, no_timeout, TxHash, UnsettledBlobMetadata,
  UnsettledBlobTransaction,
}
use hyle.NodeState.OrderedTxMap.{OrderedTxMap, empty_map, is_next_to_settle, remove_tx}
use hyle.NodeState.Timeouts.{Timeouts}
use hyle.NodeState.Changes.{Contracts}
use hyle.NodeState.Settle.{Outcome, SettlementResult, not_ready, failed, settled, settle_blobs}
use hyle.NodeState.Block.{
  Block, SettleError, tx_not_found, contracts_not_registered, not_ready_to_settle,
  not_next_to_settle, settle_event, push_events, note_origin,
}

-- `NodeStateStore`
pub record NodeStateStore : Type 0 where
  pub timeouts : Timeouts
  pub current_height : BlockHeight
  pub contracts : Contracts
  pub unsettled_transactions : OrderedTxMap

abbrev pub hyle_contract_definition : Contract
hyle_contract_definition = record {
  name = "hyle";
  program_id = 0 ∷ 0 ∷ 0 ∷ 0 ∷ [];
  state = [];
  verifier = "hyle";
  timeout_window = no_timeout;
}

-- `NodeStateStore::default()`
abbrev pub default_store : NodeStateStore
default_store = record {
  timeouts = record { by_block = [] };
  current_height = 0;
  contracts = ("hyle", hyle_contract_definition) ∷ [];
  unsettled_transactions = empty_map;
}

abbrev pub native_verifiers_contract_list : List ContractName
native_verifiers_contract_list = "blst" ∷ "sha3_256" ∷ "secp256k1" ∷ []

-- No result: the transaction failed.
pub record SettledTxOutput : Type 0 where
  pub tx : UnsettledBlobTransaction
  pub result : Option SettlementResult

-- A native blob has a proof of failure.
unfoldable pub native_blob_failed : UnsettledBlobMetadata → Bool
unfolding mem
native_blob_failed b =
    mem b.blob.contract_name native_verifiers_contract_list
    && any (λ proof. not proof.1.success) b.possible_proofs

module _ (codec : Codec) where
  -- What the proofs say of the transaction, with the log.
  unfoldable pub verdict_of : Contracts → UnsettledBlobTransaction → Outcome
  verdict_of contracts tx =
      if any native_blob_failed (values tx.blobs)
      then ([], failed)
      else settle_blobs codec contracts (values tx.blobs) [] [] []

  -- The transaction leaves the unsettled ones.
  abbrev pub take_settled :
      NodeStateStore
      → TxHash
      → UnsettledBlobTransaction
      → Option SettlementResult
      → Result SettleError SettledTxOutput × NodeStateStore
  take_settled store h tx result = (
    ok (record { tx = tx; result = result }),
    record store { unsettled_transactions = (remove_tx codec store.unsettled_transactions h).0 },
  )

  unfoldable pub conclude :
      NodeStateStore
      → TxHash
      → UnsettledBlobTransaction
      → Outcome
      → Result SettleError SettledTxOutput × NodeStateStore
  conclude store h tx (log, not_ready) = (err not_ready_to_settle, store)
  conclude store h tx (log, failed) = take_settled store h tx none
  conclude store h tx (log, settled r) =
      if is_next_to_settle codec store.unsettled_transactions h
      then take_settled store h tx (some r)
      else (err not_next_to_settle, store)

  unfoldable pub all_registered : Contracts → UnsettledBlobTransaction → Bool
  all_registered contracts tx =
      all (λ b. contains_key b.blob.contract_name contracts) (values tx.blobs)

  unfoldable pub try_to_settle_blob_tx :
      NodeStateStore
      → Block
      → TxHash
      → Block × (Result SettleError SettledTxOutput × NodeStateStore)
  unfolding all_registered
  try_to_settle_blob_tx store block h = elim (lookup h store.unsettled_transactions.map) [
    | none ↦ (block, (err tx_not_found, store))
    | some tx ↦
        if not (all_registered store.contracts tx)
        then (note_origin h tx block, (err contracts_not_registered, store))
        else (
          push_events h (map settle_event (verdict_of store.contracts tx).0)
              (note_origin h tx block),
          conclude store h tx (verdict_of store.contracts tx),
        )
  ]
