-- ===== src/NodeState/Tld.antt =====
-- crates/hyle-modules/src/node_state/hyle_tld.rs: the blobs of the `hyle` contract, which are
-- executed by the node itself. The codec stands for borsh.
pub mod Laws
use hyle.Prelude.{
  ℕ, ◌≡◌, Bool, true, false, ◌&&◌, ◌||◌, not, Option, none, some, List, [], ◌∷◌, ◌++◌,
  if◌then◌else◌, is_some, unwrap_or, Result, ok, err, ensure, ◌>>=◌, ◌>>◌,
}
use hyle.Prelude.Key.{◌==◌, string_key}
use hyle.Prelude.Map.{lookup, insert, contains_key}
use hyle.Model.{
  Blob, Codec, Contract, DeleteContractAction, RegisterContractAction,
  UpdateContractProgramIdAction, UpdateContractTimeoutWindowAction, default_timeout_window,
}
use hyle.NodeState.Changes.{
  SideEffect, register, update_program_id, update_timeout_window, delete, ModifiedContractFields,
  all_fields, no_fields, ModifiedContractData, Contracts, ContractChanges, Error, invalid_tld_blob,
  already_registered, cannot_delete_hyle, delete_unknown, cannot_update_hyle, get_contract,
}
use hyle.NodeState.Registration.{validate_contract_registration_metadata}

abbrev pub contract_of_register : RegisterContractAction → Contract
contract_of_register reg = record {
  name = reg.contract_name;
  program_id = reg.program_id;
  state = reg.state_commitment;
  verifier = reg.verifier;
  timeout_window = unwrap_or reg.timeout_window default_timeout_window;
}

unfoldable pub handle_register_blob :
    Codec → Contracts → ContractChanges → RegisterContractAction → Result Error ContractChanges
handle_register_blob codec contracts changes reg = do
  validate_contract_registration_metadata codec "hyle" reg.contract_name reg.verifier reg.program_id
      reg.state_commitment
  ensure
      (not (
        (not (reg.contract_name == "hyle") && contains_key reg.contract_name contracts)
        || contains_key reg.contract_name changes))
      already_registered
  ok (
      insert reg.contract_name
        (record {
          contract = some (contract_of_register reg);
          fields = all_fields;
          side_effects = register reg.constructor_metadata ∷ [];
        })
        changes)

unfoldable pub handle_delete_blob :
    Contracts → ContractChanges → DeleteContractAction → Result Error ContractChanges
handle_delete_blob contracts changes action = do
  ensure (not (action.contract_name == "hyle")) cannot_delete_hyle
  if contains_key action.contract_name contracts || contains_key action.contract_name changes
      then ok (
          insert action.contract_name
            (record { contract = none; fields = all_fields; side_effects = delete ∷ [] }) changes)
      else err delete_unknown

-- `and_modify` and `or_insert_with` of an update of the program id.
abbrev pub with_program_id :
    UpdateContractProgramIdAction → Contract → Option ModifiedContractData → ModifiedContractData
with_program_id u contract none = record {
  contract = some (record contract { program_id = u.program_id });
  fields = record no_fields { program_id = true };
  side_effects = update_program_id ∷ [];
}
with_program_id u contract (some c) = record {
  contract = elim c.contract [
    | none ↦ none
    | some d ↦ some (record d { program_id = u.program_id })
  ];
  fields = record (c.fields) { program_id = true };
  side_effects = c.side_effects ++ update_program_id ∷ [];
}

unfoldable pub handle_update_program_id_blob :
    Contracts → ContractChanges → UpdateContractProgramIdAction → Result Error ContractChanges
handle_update_program_id_blob contracts changes update = do
  ensure (not (update.contract_name == "hyle")) cannot_update_hyle
  contract ← get_contract contracts changes update.contract_name
  ok (
      insert update.contract_name
        (with_program_id update contract (lookup update.contract_name changes)) changes)

abbrev pub with_timeout_window :
    UpdateContractTimeoutWindowAction
    → Contract
    → Option ModifiedContractData
    → ModifiedContractData
with_timeout_window u contract none = record {
  contract = some (record contract { timeout_window = u.timeout_window });
  fields = record no_fields { timeout_window = true };
  side_effects = update_timeout_window ∷ [];
}
with_timeout_window u contract (some c) = record {
  contract = elim c.contract [
    | none ↦ none
    | some d ↦ some (record d { timeout_window = u.timeout_window })
  ];
  fields = record (c.fields) { timeout_window = true };
  side_effects = c.side_effects ++ update_timeout_window ∷ [];
}

unfoldable pub handle_update_timeout_window_blob :
    Contracts → ContractChanges → UpdateContractTimeoutWindowAction → Result Error ContractChanges
handle_update_timeout_window_blob contracts changes update = do
  ensure (not (update.contract_name == "hyle")) cannot_update_hyle
  contract ← get_contract contracts changes update.contract_name
  ok (
      insert update.contract_name
        (with_timeout_window update contract (lookup update.contract_name changes)) changes)

-- What a blob of the `hyle` contract asks for: the first decoder that accepts it.
pub data TldAction : Type 0 where
  registers : RegisterContractAction → TldAction
  deletes : DeleteContractAction → TldAction
  updates_program_id : UpdateContractProgramIdAction → TldAction
  updates_timeout_window : UpdateContractTimeoutWindowAction → TldAction
  nukes : TldAction
  unknown : TldAction

unfoldable pub tld_action : Codec → Blob → TldAction
tld_action codec blob = elim (codec.register blob.blob_data) [
  | some a ↦ registers a
  | none ↦ elim (codec.delete blob.blob_data) [
    | some a ↦ deletes a
    | none ↦ elim (codec.update_program_id blob.blob_data) [
      | some a ↦ updates_program_id a
      | none ↦ elim (codec.update_timeout_window blob.blob_data) [
        | some a ↦ updates_timeout_window a
        | none ↦ if is_some (codec.nuke blob.blob_data) then nukes else unknown
      ]
    ]
  ]
]

unfoldable pub run_tld_action :
    Codec → Contracts → ContractChanges → TldAction → Result Error ContractChanges
run_tld_action codec contracts changes (registers a) =
    handle_register_blob codec contracts changes a
run_tld_action codec contracts changes (deletes a) = handle_delete_blob contracts changes a
run_tld_action codec contracts changes (updates_program_id a) =
    handle_update_program_id_blob contracts changes a
run_tld_action codec contracts changes (updates_timeout_window a) =
    handle_update_timeout_window_blob contracts changes a
run_tld_action codec contracts changes nukes = ok changes
run_tld_action codec contracts changes unknown = err invalid_tld_blob

unfoldable pub handle_blob_for_hyle_tld :
    Codec → Contracts → ContractChanges → Blob → Result Error ContractChanges
unfolding run_tld_action tld_action
handle_blob_for_hyle_tld codec contracts changes blob =
    run_tld_action codec contracts changes (tld_action codec blob)
