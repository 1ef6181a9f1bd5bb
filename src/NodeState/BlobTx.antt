-- ===== src/NodeState/BlobTx.antt =====
-- crates/hyle-modules/src/node_state.rs: `handle_blob_tx`, a new transaction, with the checks of
-- crates/hyle-model/src/transaction.rs and of node_state/hyle_tld.rs.
use hyle.Prelude.{
  suc, String, Bool, true, false, not, ◌&&◌, ◌||◌, Option, none, some, List, [], ◌∷◌, if◌then◌else◌,
  any, all, is_some, is_empty, Result, ok, err, ensure, ◌>>◌,
}
use hyle.Prelude.Key.{◌==◌, string_key, nat_key}
use hyle.Prelude.Texts.{rsplit_once}
use hyle.Prelude.Map.{Map, lookup, contains_key}
use hyle.Model.{
  Blob, BlobIndex, BlobTransaction, BlobsHashes, Codec, Identity, ProgramId, timeout, no_timeout,
  TxContext, TxHash, UnsettledBlobMetadata, UnsettledBlobTransaction, Verifier,
}
use hyle.NodeState.OrderedTxMap.{add, is_next_to_settle}
use hyle.NodeState.Timeouts.{get_tx_timeout_window, set_timeout}
use hyle.NodeState.Changes.{Contracts}
use hyle.NodeState.Block.{
  HandleError, invalid_identity, no_blobs, invalid_hyle_blobs, unknown_contracts,
}
use hyle.NodeState.Store.{NodeStateStore}

pub data BlobTxHandled : Type 0 where
  should_settle : TxHash → BlobTxHandled
  duplicate handled : BlobTxHandled

unfoldable pub validate_identity : Identity → List Blob → Bool
validate_identity identity blobs = elim (rsplit_once b'@' identity) [
  | none ↦ false
  | some (name, contract) ↦
      if name == "" || contract == "" then false else any (λ b. b.contract_name == contract) blobs
]

-- `HYLI_TLD_ID`
abbrev pub hyli_tld_id : Identity
hyli_tld_id = "hyli@wallet"

-- `TryFrom<&Verifier> for NativeVerifiers`, and `From<NativeVerifiers> for ProgramId`.
abbrev pub native_program_id : Verifier → Option ProgramId
native_program_id v =
    if v == "blst"
    then some (98 ∷ 108 ∷ 115 ∷ 116 ∷ [])
    else if v == "sha3_256"
    then some (115 ∷ 104 ∷ 97 ∷ 51 ∷ 95 ∷ 50 ∷ 53 ∷ 54 ∷ [])
    else if v == "secp256k1"
    then some (115 ∷ 101 ∷ 99 ∷ 112 ∷ 50 ∷ 53 ∷ 54 ∷ 107 ∷ 49 ∷ [])
    else none

module _ (codec : Codec) where
  -- One blob of the static check of the `hyle` contract's blobs.
  unfoldable pub valid_hyle_blob : BlobTransaction → BlobIndex → Blob → Bool
  valid_hyle_blob tx index blob =
      if is_some (codec.update_program_id blob.blob_data)
        || (is_some (codec.delete blob.blob_data)
            || is_some (codec.update_timeout_window blob.blob_data))
      then tx.identity == hyli_tld_id
      else elim (codec.nuke blob.blob_data) [
        | some txs ↦ codec.nuke_is_signed tx.identity tx.blobs index txs
        | none ↦ is_some (codec.register blob.blob_data)
      ]

  unfoldable pub validate_hyle_contract_blobs : BlobTransaction → BlobIndex → List Blob → Bool
  unfolding valid_hyle_blob
  validate_hyle_contract_blobs tx index [] = true
  validate_hyle_contract_blobs tx index (blob ∷ blobs) =
      (not (blob.contract_name == "hyle") || valid_hyle_blob tx index blob)
      && validate_hyle_contract_blobs tx (suc index) blobs

  -- The `filter_map` closure for one blob: what is kept of it, and whether it lets the node settle.
  unfoldable pub unsettled_blob :
      Contracts → TxHash → List Blob → BlobIndex → Blob → Option UnsettledBlobMetadata × Bool
  unsettled_blob contracts h blobs index blob = elim (native_of contracts blob) [
    | some (verifier, id) ↦
        let output = codec.native_verify h index blobs verifier in
        (
          if output.success
              then none
              else some (record { blob = blob; possible_proofs = (id, output) ∷ [] }),
          true,
        )
    | none ↦ (some (record { blob = blob; possible_proofs = [] }), blob.contract_name == "hyle")
  ]
    where
      native_of : Contracts → Blob → Option (Verifier × ProgramId)
      native_of contracts blob = elim (lookup blob.contract_name contracts) [
        | none ↦ none
        | some c ↦ elim (native_program_id c.verifier) [
          | none ↦ none
          | some id ↦ some (c.verifier, id)
        ]
      ]

  unfoldable pub unsettled_blobs :
      Contracts
      → TxHash
      → List Blob
      → BlobIndex
      → List Blob
      → Map BlobIndex UnsettledBlobMetadata × Bool
  unfolding unsettled_blob
  unsettled_blobs contracts h blobs index [] = ([], true)
  unsettled_blobs contracts h blobs index (blob ∷ rest) =
      let (kept, ready) = unsettled_blob contracts h blobs index blob in
      let (others, all_ready) = unsettled_blobs contracts h blobs (suc index) rest in
      (elim kept [ some b ↦ (index, b) ∷ others | none ↦ others ], ready && all_ready)

  unfoldable pub blobs_hash : BlobIndex → List Blob → BlobsHashes
  blobs_hash index [] = []
  blobs_hash index (blob ∷ blobs) = (index, codec.hashed blob) ∷ blobs_hash (suc index) blobs

  -- The timeout of a transaction, where it is next and has a window.
  unfoldable pub start_timeout : NodeStateStore → TxHash → List Blob → NodeStateStore
  start_timeout store h blobs =
      if is_next_to_settle codec store.unsettled_transactions h
      then elim (get_tx_timeout_window store.current_height store.contracts blobs) [
        | timeout window ↦ record store {
          timeouts = set_timeout store.timeouts h store.current_height window;
        }
        | no_timeout ↦ store
      ]
      else store

  -- The transaction that is added.
  unfoldable pub new_unsettled :
      NodeStateStore → String → TxHash → BlobTransaction → TxContext → UnsettledBlobTransaction
  unfolding unsettled_blobs blobs_hash
  new_unsettled store parent_dp_hash h tx context = record {
    identity = tx.identity;
    parent_dp_hash = parent_dp_hash;
    hash = h;
    tx_context = context;
    blobs_hash = blobs_hash 0 tx.blobs;
    blobs = (unsettled_blobs store.contracts h tx.blobs 0 tx.blobs).0;
  }

  unfoldable pub admit :
      NodeStateStore
      → String
      → TxHash
      → BlobTransaction
      → TxContext
      → NodeStateStore × BlobTxHandled
  unfolding new_unsettled start_timeout
  admit store parent_dp_hash h tx context =
      let (txs, added) =
        add codec store.unsettled_transactions (new_unsettled store parent_dp_hash h tx context) in
      elim added [
        | none ↦ (store, duplicate)
        | some should ↦ (
          start_timeout (record store { unsettled_transactions = txs }) h tx.blobs,
          if should && (unsettled_blobs store.contracts h tx.blobs 0 tx.blobs).1
              then should_settle h
              else handled,
        )
      ]

  -- The checks that refuse a transaction before anything is stored.
  unfoldable pub check_blob_tx : NodeStateStore → BlobTransaction → Result HandleError (Unit {0})
  check_blob_tx store tx = do
    ensure (validate_identity tx.identity tx.blobs) invalid_identity
    ensure (not (is_empty tx.blobs)) no_blobs
    ensure (validate_hyle_contract_blobs tx 0 tx.blobs) invalid_hyle_blobs
    ensure (all (λ b. contains_key b.contract_name store.contracts) tx.blobs) unknown_contracts

  unfoldable pub handle_blob_tx :
      NodeStateStore
      → String
      → TxHash
      → BlobTransaction
      → TxContext
      → NodeStateStore × Result HandleError BlobTxHandled
  unfolding check_blob_tx admit
  handle_blob_tx store parent_dp_hash h tx context = elim (check_blob_tx store tx) [
    | err e ↦ (store, err e)
    | ok done ↦
        let (store', result) = admit store parent_dp_hash h tx context in (store', ok result)
  ]
