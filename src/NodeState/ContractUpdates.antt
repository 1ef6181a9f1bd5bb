-- ===== src/NodeState/ContractUpdates.antt =====
-- crates/hyle-modules/src/node_state.rs, `on_settled_blob_tx`: the loop over the contracts that a
-- settled transaction changed or deleted.
use hyle.Prelude.{ℕ, zero, suc, Option, none, some, List, [], ◌∷◌, if◌then◌else◌, length}
use hyle.Prelude.Key.{string_key, nat_key}
use hyle.Prelude.Map.{insert, remove, contains_key}
use hyle.Prelude.Sets.{set_extend}
use hyle.Model.{Bytes, Codec, Contract, ContractName, TxHash}
use hyle.NodeState.OrderedTxMap.{
  OrderedTxMap, get_next_unsettled_tx, get_contracts_blocked_by_tx, remove_tx, next_txs,
}
use hyle.NodeState.Changes.{
  ContractChanges, ModifiedContractData, ModifiedContractFields, SideEffect, register,
}
use hyle.NodeState.Block.{Block, timed_out, push_events, note_origin}
use hyle.NodeState.Store.{NodeStateStore}

-- The state that the loop over the contract changes passes along: the store, the block and the
-- transactions to try next.
abbrev pub Progress : Type 0
Progress = NodeStateStore × (Block × List TxHash)

module _ (codec : Codec) where
  -- The transactions of a deleted contract time out, from the front of its queue. The fuel bounds
  -- the turns of the `while`.
  unfoldable pub time_out_all :
      ℕ
      → ContractName
      → OrderedTxMap
      → Block
      → List ContractName
      → OrderedTxMap × (Block × List ContractName)
  time_out_all zero name s block blocked = (s, (block, blocked))
  time_out_all (suc fuel) name s block blocked = elim (get_next_unsettled_tx s name) [
    | none ↦ (s, (block, blocked))
    | some h ↦
        let (s', popped) = remove_tx codec s h in
        elim popped [
          | none ↦ time_out_all fuel name s' block blocked
          | some tx ↦
              time_out_all fuel name s' (note_origin h tx (push_events h (timed_out ∷ []) block))
                (set_extend blocked (get_contracts_blocked_by_tx codec tx))
        ]
  ]

  unfoldable pub delete_contract : TxHash → ContractName → Progress → Progress
  unfolding time_out_all
  delete_contract bth name (store, (block, next)) =
      let txs = store.unsettled_transactions in
      let (txs', rest) = time_out_all (length txs.map) name txs block [] in
      (
        record store { contracts = remove name store.contracts; unsettled_transactions = txs' },
        (
          record rest.0 {
            registered_contracts = remove name rest.0.registered_contracts;
            deleted_contracts = insert name bth rest.0.deleted_contracts;
          },
          next_txs codec txs' next rest.1,
        ),
      )

  -- `side_effects.into_iter().find_map(…)`
  unfoldable pub register_metadata : List SideEffect → Option Bytes
  register_metadata [] = none
  register_metadata (register m ∷ effects) = m
  register_metadata (_ ∷ effects) = register_metadata effects

  unfoldable pub note_registered :
      TxHash → ContractName → Contract → List SideEffect → Block → Block
  unfolding register_metadata
  note_registered bth name c effects block = record block {
    registered_contracts =
        insert name
          (
            bth,
            record {
              verifier = c.verifier;
              program_id = c.program_id;
              state_commitment = c.state;
              contract_name = name;
              timeout_window = some c.timeout_window;
            },
            register_metadata effects,
          )
          block.registered_contracts;
    deleted_contracts = remove name block.deleted_contracts;
  }

  unfoldable pub note_fields : Contract → ModifiedContractFields → Block → Block
  note_fields c fields block = record block {
    updated_states =
        if fields.state then insert c.name c.state block.updated_states else block.updated_states;
    updated_program_ids =
        if fields.program_id
        then insert c.name c.program_id block.updated_program_ids
        else block.updated_program_ids;
    updated_timeout_windows =
        if fields.timeout_window
        then insert c.name c.timeout_window block.updated_timeout_windows
        else block.updated_timeout_windows;
  }

  unfoldable pub apply_change : TxHash → ContractName → ModifiedContractData → Progress → Progress
  unfolding delete_contract note_registered note_fields
  apply_change bth name change (store, (block, next)) = elim change.contract [
    | none ↦ delete_contract bth name (store, (block, next))
    | some c ↦ (
      record store { contracts = insert c.name c store.contracts },
      (
        note_fields c change.fields (
            if contains_key name store.contracts
            then block
            else note_registered bth name c change.side_effects block),
        next,
      ),
    )
  ]

  unfoldable pub apply_changes : TxHash → ContractChanges → Progress → Progress
  unfolding apply_change
  apply_changes bth [] progress = progress
  apply_changes bth ((name, change) ∷ changes) progress =
      apply_changes bth changes (apply_change bth name change progress)
