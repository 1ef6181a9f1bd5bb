-- ===== src/NodeState/Changes.antt =====
-- crates/hyle-modules/src/node_state.rs: what the settlement of a transaction changes. An error is
-- the `bail!` that it comes from, without the values that its message prints.
use hyle.Prelude.{Bool, true, false, Option, none, some, List}
use hyle.Prelude.Key.{string_key}
use hyle.Prelude.Map.{Map, lookup}
use hyle.Prelude.{Result, ok, err}
use hyle.Model.{Bytes, Contract, ContractName}

pub data SideEffect : Type 0 where
  register : Option Bytes → SideEffect
  update_state update_program_id update_timeout_window delete : SideEffect

pub record ModifiedContractFields : Type 0 where
  pub program_id : Bool
  pub state : Bool
  pub verifier : Bool
  pub timeout_window : Bool

-- `ModifiedContractFields::all()` and `::default()`
abbrev pub all_fields : ModifiedContractFields
all_fields = record { program_id = true; state = true; verifier = true; timeout_window = true }

abbrev pub no_fields : ModifiedContractFields
no_fields = record { program_id = false; state = false; verifier = false; timeout_window = false }

-- No contract: it was deleted.
pub record ModifiedContractData : Type 0 where
  pub contract : Option Contract
  pub fields : ModifiedContractFields
  pub side_effects : List SideEffect

abbrev pub Contracts : Type 0
Contracts = Map ContractName Contract

abbrev pub ContractChanges : Type 0
ContractChanges = Map ContractName ModifiedContractData

pub data Error : Type 0 where
  -- contract_registration.rs
  no_dot empty_name_or_tld invalid_subdomain invalid_program_id state_too_long : Error
  -- hyle_tld.rs
  invalid_tld_blob already_registered cannot_delete_hyle delete_unknown cannot_update_hyle : Error
  -- node_state.rs
  contract_gone initial_state_mismatch program_id_mismatch state_read_mismatch : Error
  not_a_register_blob : Error
  wrong_identity wrong_tx_hash wrong_tx_context wrong_blobs blob_out_of_bounds : Error
  no_onchain_effect effect_mismatch wrong_kind_of_effect : Error

-- `NodeState::get_contract`
unfoldable pub get_contract : Contracts → ContractChanges → ContractName → Result Error Contract
get_contract contracts changes name = elim (lookup name changes) [
  | some change ↦ elim change.contract [ some c ↦ ok c | none ↦ err contract_gone ]
  | none ↦ elim (lookup name contracts) [ some c ↦ ok c | none ↦ err contract_gone ]
]
