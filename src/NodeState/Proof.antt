-- ===== src/NodeState/Proof.antt =====
-- crates/hyle-modules/src/node_state.rs: `verify_hyle_output`, when a proof arrives, and
-- `process_proof`, when its transaction is settled.
pub mod Laws
use hyle.Prelude.{
  ℕ, ◌≡◌, Bool, true, false, ◌&&◌, ◌||◌, not, Option, none, some, List, [], ◌∷◌, ◌++◌,
  if◌then◌else◌, nat_eq, all, any, is_some, unwrap_or, front, Result, ok, err, ensure, ◌>>=◌, ◌>>◌,
}
use hyle.Prelude.Key.{◌==◌, string_key, nat_key}
use hyle.Prelude.Map.{Map, lookup, insert}
use hyle.Model.{
  Blob, BlobIndex, BlobsHashes, Bytes, Codec, Contract, ContractName, HyleOutput, IndexedBlobs,
  OnchainEffect, register_contract, delete_contract, ProgramId, RegisterContractAction,
  RegisterContractEffect, StateCommitment, TimeoutWindow, no_timeout, timeout, TxContext,
  UnsettledBlobMetadata, UnsettledBlobTransaction, bytes_key, effect_of_action,
}
use hyle.NodeState.Changes.{
  SideEffect, register, update_state, delete, ModifiedContractFields, all_fields, no_fields,
  ModifiedContractData, Contracts, ContractChanges, Error, contract_gone, initial_state_mismatch,
  program_id_mismatch, state_read_mismatch, not_a_register_blob, wrong_identity, wrong_tx_hash,
  wrong_tx_context, wrong_blobs, blob_out_of_bounds, no_onchain_effect, effect_mismatch,
  wrong_kind_of_effect, get_contract,
}
use hyle.NodeState.Registration.{
  validate_contract_name_registration, validate_contract_registration_metadata,
  validate_state_commitment_size,
}

-- The derived `PartialEq` of these types.
abbrev pub window_eq : TimeoutWindow → TimeoutWindow → Bool
window_eq no_timeout no_timeout = true
window_eq (timeout a) (timeout b) = nat_eq a b
window_eq _ _ = false

abbrev pub option_window_eq : Option TimeoutWindow → Option TimeoutWindow → Bool
option_window_eq none none = true
option_window_eq (some a) (some b) = window_eq a b
option_window_eq _ _ = false

unfoldable pub effect_eq : RegisterContractEffect → RegisterContractEffect → Bool
effect_eq a b =
    a.verifier == b.verifier
    && (a.program_id == b.program_id
        && (a.state_commitment == b.state_commitment
            && (a.contract_name == b.contract_name
                && option_window_eq a.timeout_window b.timeout_window)))

unfoldable pub tx_context_eq : TxContext → TxContext → Bool
tx_context_eq a b =
    a.lane_id == b.lane_id
    && (a.block_hash == b.block_hash
        && (a.block_height == b.block_height
            && (a.timestamp == b.timestamp && a.chain_id == b.chain_id)))

-- `BlobsHashes::from(&IndexedBlobs)`: a later blob of the same index takes the place of an earlier.
unfoldable pub blobs_hashes : Codec → BlobsHashes → IndexedBlobs → BlobsHashes
blobs_hashes codec hashes [] = hashes
blobs_hashes codec hashes ((index, blob) ∷ blobs) =
    blobs_hashes codec (insert index (codec.hashed blob) hashes) blobs

-- `BlobsHashes::includes_all`
unfoldable pub includes_all : BlobsHashes → BlobsHashes → Bool
includes_all hashes other = all (λ p. any (λ q. p.0 == q.0 && p.1 == q.1) hashes) other

unfoldable pub check_tx_ctx : Option TxContext → TxContext → Result Error (Unit {0})
check_tx_ctx none context = ok tt
check_tx_ctx (some c) context = ensure (tx_context_eq c context) wrong_tx_context

unfoldable pub check_register_effect :
    List OnchainEffect → RegisterContractAction → Result Error (Unit {0})
check_register_effect [] action = err no_onchain_effect
check_register_effect (register_contract effect ∷ effects) action =
    ensure (effect_eq effect (effect_of_action action)) effect_mismatch
check_register_effect (delete_contract name ∷ effects) action = err wrong_kind_of_effect

unfoldable pub check_delete_effect : List OnchainEffect → ContractName → Result Error (Unit {0})
check_delete_effect [] name = err no_onchain_effect
check_delete_effect (delete_contract deleted ∷ effects) name =
    ensure (deleted == name) effect_mismatch
check_delete_effect (register_contract effect ∷ effects) name = err wrong_kind_of_effect

unfoldable pub check_onchain_effects : Codec → Blob → List OnchainEffect → Result Error (Unit {0})
check_onchain_effects codec blob effects = elim (codec.register blob.blob_data) [
  | some action ↦ check_register_effect effects action
  | none ↦ elim (codec.delete blob.blob_data) [
    | some action ↦ check_delete_effect effects action.contract_name
    | none ↦ ok tt
  ]
]

unfoldable pub find_blob : UnsettledBlobTransaction → BlobIndex → Result Error UnsettledBlobMetadata
find_blob tx index = elim (lookup index tx.blobs) [ some b ↦ ok b | none ↦ err blob_out_of_bounds ]

unfoldable pub verify_hyle_output :
    Codec → UnsettledBlobTransaction → HyleOutput → Result Error (Unit {0})
verify_hyle_output codec tx output = do
  ensure (tx.identity == output.identity) wrong_identity
  ensure (output.tx_hash == tx.hash) wrong_tx_hash
  check_tx_ctx output.tx_ctx tx.tx_context
  ensure (includes_all tx.blobs_hash (blobs_hashes codec [] output.blobs)) wrong_blobs
  metadata ← find_blob tx output.index
  check_onchain_effects codec metadata.blob output.onchain_effects

unfoldable pub check_state_reads :
    Contracts → ContractChanges → List (ContractName × StateCommitment) → Result Error (Unit {0})
check_state_reads contracts changes [] = ok tt
check_state_reads contracts changes ((name, state) ∷ reads) =
    let rest = check_state_reads contracts changes reads in
    do
      other ← get_contract contracts changes name
      ensure (state == other.state) state_read_mismatch
      rest

abbrev pub contract_of_effect : Contract → RegisterContractEffect → Contract
contract_of_effect contract effect = record {
  name = effect.contract_name;
  program_id = effect.program_id;
  state = effect.state_commitment;
  verifier = effect.verifier;
  timeout_window = unwrap_or effect.timeout_window contract.timeout_window;
}

-- `and_modify` and `or_insert_with` of a deletion.
abbrev pub mark_deleted : Option ModifiedContractData → ModifiedContractData
mark_deleted none = record { contract = none; fields = all_fields; side_effects = delete ∷ [] }
mark_deleted (some c) = record c { contract = none; side_effects = c.side_effects ++ delete ∷ [] }

unfoldable pub apply_effect :
    Codec → Contract → Blob → ContractChanges → OnchainEffect → Result Error ContractChanges
apply_effect codec contract blob changes (register_contract effect) = do
  validate_contract_registration_metadata codec contract.name effect.contract_name effect.verifier
      effect.program_id effect.state_commitment
  elim (codec.register blob.blob_data) [
    | none ↦ err not_a_register_blob
    | some action ↦ ok (
        insert effect.contract_name
          (record {
            contract = some (contract_of_effect contract effect);
            fields = all_fields;
            side_effects = register action.constructor_metadata ∷ [];
          })
          changes)
  ]
apply_effect codec contract blob changes (delete_contract name) = do
  validate_contract_name_registration contract.name name
  ok (insert name (mark_deleted (lookup name changes)) changes)

unfoldable pub apply_effects :
    Codec → Contract → Blob → ContractChanges → List OnchainEffect → Result Error ContractChanges
apply_effects codec contract blob changes [] = ok changes
apply_effects codec contract blob changes (effect ∷ effects) = do
  changes' ← apply_effect codec contract blob changes effect
  apply_effects codec contract blob changes' effects

-- `and_modify` and `or_insert_with` of the generic state update.
abbrev pub with_state :
    StateCommitment → Contract → Option ModifiedContractData → ModifiedContractData
with_state next contract none = record {
  contract = some (record contract { state = next });
  fields = record no_fields { state = true };
  side_effects = update_state ∷ [];
}
with_state next contract (some c) = elim c.contract [
  | none ↦ c
  | some d ↦ record {
    contract = some (record d { state = next });
    fields = record (c.fields) { state = true };
    side_effects = c.side_effects ++ update_state ∷ [];
  }
]

unfoldable pub process_proof :
    Codec
    → Contracts
    → ContractChanges
    → ContractName
    → ProgramId × HyleOutput
    → UnsettledBlobMetadata
    → Result Error ContractChanges
process_proof codec contracts changes contract_name (program_id, output) current_blob = do
  validate_state_commitment_size output.next_state
  contract ← get_contract contracts changes contract_name
  ensure (output.initial_state == contract.state) initial_state_mismatch
  ensure (program_id == contract.program_id) program_id_mismatch
  check_state_reads contracts changes output.state_reads
  changes' ← apply_effects codec contract current_blob.blob changes output.onchain_effects
  ok (
      insert contract.name (with_state output.next_state contract (lookup contract.name changes'))
        changes')
