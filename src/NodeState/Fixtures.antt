-- ===== src/NodeState/Fixtures.antt =====
-- The data of the tests: a codec that decodes by the first byte, contracts, blobs and transactions.
use hyle.Prelude.{ℕ, Bool, true, false, Option, none, some, [], ◌∷◌, if◌then◌else◌, nat_eq, length}
use hyle.Prelude.Map.{Map}
use hyle.Model.{
  Blob, BlobIndex, Bytes, Codec, Contract, ContractName, DeleteContractAction, HyleOutput,
  RegisterContractAction, StateCommitment, TxContext, TxHash, UnsettledBlobMetadata,
  UnsettledBlobTransaction, UpdateContractProgramIdAction, UpdateContractTimeoutWindowAction,
  no_timeout, timeout, stake,
}
use hyle.NodeState.Changes.{Contracts, ContractChanges, no_fields, update_state}

abbrev pub when_first {ℓ} : {A : Type ℓ} → ℕ → A → Bytes → Option A
when_first n a [] = none
when_first n a (b ∷ bs) = if nat_eq b n then some a else none

abbrev pub register_dex : RegisterContractAction
register_dex = record {
  verifier = "test";
  program_id = 7 ∷ [];
  state_commitment = 0 ∷ [];
  contract_name = "dex";
  timeout_window = some (timeout 5);
  constructor_metadata = none;
}

abbrev pub delete_token : DeleteContractAction
delete_token = record { contract_name = "token" }

abbrev pub update_token : UpdateContractProgramIdAction
update_token = record { contract_name = "token"; program_id = 9 ∷ [] }

abbrev pub update_token_window : UpdateContractTimeoutWindowAction
update_token_window = record { contract_name = "token"; timeout_window = no_timeout }

abbrev pub token : Contract
token = record {
  name = "token";
  program_id = 3 ∷ [];
  state = 10 ∷ [];
  verifier = "test";
  timeout_window = timeout 20;
}

abbrev pub vault : Contract
vault = record {
  name = "vault";
  program_id = 4 ∷ [];
  state = 50 ∷ [];
  verifier = "test";
  timeout_window = no_timeout;
}

abbrev pub contracts : Contracts
contracts = ("token", token) ∷ ("vault", vault) ∷ []

abbrev pub blob_of : ContractName → Bytes → Blob
blob_of name bytes = record { contract_name = name; blob_data = bytes }

abbrev pub output_of : Bool → StateCommitment → StateCommitment → HyleOutput
output_of success initial next = record {
  version = 1;
  initial_state = initial;
  next_state = next;
  identity = "bob@token";
  index = 0;
  blobs = [];
  tx_blob_count = 1;
  tx_hash = "tx";
  success = success;
  state_reads = ("vault", 50 ∷ []) ∷ [];
  tx_ctx = none;
  onchain_effects = [];
  program_outputs = [];
}

abbrev pub test_codec : Codec
test_codec = record {
  register = when_first 1 register_dex;
  delete = when_first 2 delete_token;
  update_program_id = when_first 3 update_token;
  update_timeout_window = when_first 4 update_token_window;
  staking_action = when_first 6 (stake 10);
  nuke = when_first 5 [];
  hashed = λ b. b.contract_name;
  valid_program_id = λ v p. true;
  native_verify = λ h i blobs v. output_of (nat_eq (length blobs) 1) [] [];
  nuke_is_signed = λ identity blobs i txs. false;
}

-- A stale proof, then one that holds.
abbrev pub token_blob : UnsettledBlobMetadata
token_blob = record {
  blob = blob_of "token" (0 ∷ []);
  possible_proofs =
      (3 ∷ [], output_of true (8 ∷ []) (9 ∷ []))
      ∷ (3 ∷ [], output_of true (10 ∷ []) (11 ∷ []))
      ∷ [];
}

abbrev pub failing_blob : UnsettledBlobMetadata
failing_blob = record {
  blob = blob_of "token" (0 ∷ []);
  possible_proofs = (3 ∷ [], output_of false (10 ∷ []) (10 ∷ [])) ∷ [];
}

abbrev pub hyle_blob : UnsettledBlobMetadata
hyle_blob = record { blob = blob_of "hyle" (1 ∷ []); possible_proofs = [] }

abbrev pub context : TxContext
context = record { lane_id = []; block_hash = "b"; block_height = 1; timestamp = 0; chain_id = 0 }

abbrev pub tx_of : TxHash → Map BlobIndex UnsettledBlobMetadata → UnsettledBlobTransaction
tx_of hash blobs = record {
  identity = "bob@token";
  parent_dp_hash = "dp";
  hash = hash;
  tx_context = context;
  blobs_hash = [];
  blobs = blobs;
}

abbrev pub first_tx : UnsettledBlobTransaction
first_tx = tx_of "first" ((0, token_blob) ∷ [])

abbrev pub second_tx : UnsettledBlobTransaction
second_tx = tx_of "second" ((0, hyle_blob) ∷ (1, token_blob) ∷ [])

-- What the second proof of the token writes.
abbrev pub token_moved : ContractChanges
token_moved =
    (
      "token",
      record {
        contract = some (record token { state = 11 ∷ [] });
        fields = record no_fields { state = true };
        side_effects = update_state ∷ [];
      },
    )
    ∷ []
