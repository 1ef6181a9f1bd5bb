-- ===== src/NodeState/Tests/Blocks.antt =====
-- Blocks and the loop of settlements, at concrete inputs.
use hyle.Prelude.{◌≡◌, refl, false, none, some, List, [], ◌∷◌}
use hyle.Prelude.Key.{string_key, nat_key}
use hyle.Prelude.Texts.{rsplit_once}
use hyle.Prelude.Sets.{mem, set_insert, btree_insert, place_member, btree_append, set_remove}
use hyle.Prelude.Map.{lookup, insert, remove, place, replace}
use hyle.Model.{TxContext, blob_transaction}
use hyle.NodeState.Timeouts.{
  drop_at, get_tx_timeout_window, known_windows, min_window, fold_windows,
}
use hyle.NodeState.Registration.{
  validate_contract_registration_metadata, validate_contract_name_registration,
  validate_state_commitment_size, split_once,
}
use hyle.NodeState.OrderedTxMap.{
  add, empty_map, is_next_to_settle, remove_tx, push_all, push_back, get_contracts_blocked_by_tx,
  collect_contracts, add_contracts, get_next_unsettled_tx, retain_all, retain_others,
  get_next_txs_blocked_by_tx, next_txs,
}
use hyle.NodeState.OrderedTxMap.Coherent.{touches}
use hyle.NodeState.OrderedTxMap.Preserve.{add-IsCoherent, empty-IsCoherent}
use hyle.NodeState.Tld.{contract_of_register, handle_blob_for_hyle_tld, handle_register_blob}
use hyle.NodeState.Settle.{SettlementResult, settle_blobs, settle_hyle}
use hyle.NodeState.Block.{Block, empty_block, push_events, note_origin, touch_origin}
use hyle.NodeState.Store.{
  NodeStateStore, SettledTxOutput, all_registered, default_store, native_blob_failed,
  try_to_settle_blob_tx, verdict_of, conclude,
}
use hyle.NodeState.Settled.{on_settled_blob_tx, note_blobs, note_blob, collect_nukes}
use hyle.NodeState.ContractUpdates.{
  Progress, delete_contract, apply_changes, apply_change, note_registered, register_metadata,
  note_fields,
}
use hyle.NodeState.Nukes.{nuke_txs, nuke_updates, force_all}
use hyle.NodeState.Settled.Coherence.{StoreIsCoherent}
use hyle.NodeState.Settled.Deletion.{deletion_is_complete}
use hyle.NodeState.UntilDone.{settle_txs_until_done, settle_loop, turn, follow_up}
use hyle.NodeState.UntilDone.Fuel.{settle_txs_until_done_ends}
use hyle.NodeState.BlobTx.{
  handle_blob_tx, check_blob_tx, validate_identity, validate_hyle_contract_blobs, valid_hyle_blob,
  admit, new_unsettled, unsettled_blobs, unsettled_blob, blobs_hash, start_timeout,
}
use hyle.NodeState.BlockHandler.{
  SignedTx, run_block, handle_signed_block, clear_timeouts, time_out_each, handle_txs, handle_tx,
  handle_transaction_data, after_blob_tx, settle, reset_timeouts,
}
use hyle.NodeState.BlockHandler.SignedBlock.{starts, handles, Reachable-IsCoherent}
use hyle.NodeState.Fixtures.{
  test_codec, contracts, context, blob_of, first_tx, register_dex, token_moved,
}

-- A first block with one transaction, which registers "dex".
abbrev genesis_context : TxContext
genesis_context = record context { block_height = 0 }

abbrev genesis_txs : List (SignedTx test_codec)
genesis_txs =
    (
      [],
      ("dp", "h1"),
      blob_transaction (record { identity = "bob@hyle"; blobs = blob_of "hyle" (1 ∷ []) ∷ [] }),
    )
    ∷ []

abbrev genesis : NodeStateStore × Block
genesis = run_block test_codec default_store genesis_context genesis_txs

genesis_handled :
    handle_signed_block test_codec default_store genesis_context genesis_txs ≡ some genesis
unfolding handle_signed_block
genesis_handled = refl

Reachable-IsCoherent_example : StoreIsCoherent test_codec genesis.0
Reachable-IsCoherent_example =
    Reachable-IsCoherent test_codec genesis.0
      (handles default_store genesis.0 genesis_context genesis_txs genesis.1 starts genesis_handled)

-- The block registers "dex", and its transaction is not unsettled any more.
genesis_registers :
    (lookup "dex" genesis.0.contracts ≡ some (contract_of_register register_dex))
    × (genesis.0.unsettled_transactions ≡ empty_map)
    × (genesis.1.successful_txs ≡ "h1" ∷ [])
unfolding run_block clear_timeouts drop_at time_out_each handle_txs handle_tx
    handle_transaction_data handle_blob_tx check_blob_tx validate_identity rsplit_once
    validate_hyle_contract_blobs valid_hyle_blob admit new_unsettled unsettled_blobs unsettled_blob
    blobs_hash add push_all push_back get_contracts_blocked_by_tx collect_contracts add_contracts
    start_timeout is_next_to_settle get_next_unsettled_tx get_tx_timeout_window known_windows
    min_window fold_windows after_blob_tx settle settle_txs_until_done settle_loop turn follow_up
    try_to_settle_blob_tx all_registered verdict_of conclude native_blob_failed settle_blobs
    settle_hyle handle_blob_for_hyle_tld handle_register_blob
    validate_contract_registration_metadata validate_contract_name_registration
    validate_state_commitment_size split_once remove_tx retain_all retain_others on_settled_blob_tx
    note_blobs note_blob collect_nukes apply_changes apply_change note_registered register_metadata
    note_fields nuke_txs nuke_updates force_all get_next_txs_blocked_by_tx next_txs push_events
    note_origin touch_origin reset_timeouts lookup insert place replace remove mem set_insert
    btree_insert place_member btree_append set_remove
genesis_registers = (refl, refl, refl)

-- One transaction waits, for the token.
abbrev waiting : NodeStateStore
waiting = record {
  timeouts = record { by_block = [] };
  current_height = 1;
  contracts = contracts;
  unsettled_transactions = (add test_codec empty_map first_tx).0;
}

waiting-IsCoherent : StoreIsCoherent test_codec waiting
waiting-IsCoherent = add-IsCoherent test_codec empty_map first_tx (empty-IsCoherent test_codec)

deletion_is_complete_example :
    (lookup "token"
        (delete_contract test_codec "del" "token" (waiting, (empty_block 1, []))).0.contracts
      ≡ none)
    × (touches test_codec
          (lookup "first"
            (delete_contract test_codec "del" "token"
              (waiting, (empty_block 1, []))).0.unsettled_transactions.map)
          "token"
        ≡ false)
deletion_is_complete_example =
    deletion_is_complete test_codec "del" "token" (waiting, (empty_block 1, [])) "first"
      waiting-IsCoherent

settle_txs_until_done_ends_example :
    (p : Progress) × (settle_txs_until_done test_codec waiting (empty_block 1) ("first" ∷ [])
      ≡ some p)
settle_txs_until_done_ends_example =
    settle_txs_until_done_ends test_codec waiting (empty_block 1) ("first" ∷ [])

abbrev first_settled : SettlementResult
first_settled = record { contract_changes = token_moved; blob_proof_output_indices = 1 ∷ [] }

abbrev first_output : SettledTxOutput
first_output = record { tx = first_tx; result = some first_settled }

abbrev nothing_waits : NodeStateStore
nothing_waits = record waiting {
  unsettled_transactions = (remove_tx test_codec waiting.unsettled_transactions "first").0;
}
