-- ===== src/Mempool/Outputs.antt =====
-- The derived equalities of `HyleOutput` and of what it holds: crates/hyle-model/src/contract.rs.
use hyle.Prelude.{Bool, true, false, ◌&&◌, Option, none, some, nat_eq, not}
use hyle.Prelude.Key.{◌==◌, string_key}
use hyle.Model.{
  bytes_key, Blob, BlobIndex, TimeoutWindow, no_timeout, timeout, TxContext, RegisterContractEffect,
  OnchainEffect, register_contract, delete_contract, HyleOutput, ContractName, StateCommitment,
}
use hyle.Proposals.{list_eq}

abbrev bool_eq : Bool → Bool → Bool
bool_eq true b = b
bool_eq false b = not b

abbrev option_eq : {A : Type 0} → (A → A → Bool) → Option A → Option A → Bool
option_eq eq none none = true
option_eq eq (some a) (some b) = eq a b
option_eq eq _ _ = false

abbrev indexed_blob_eq : BlobIndex × Blob → BlobIndex × Blob → Bool
indexed_blob_eq (i, a) (j, b) =
    nat_eq i j && (a.contract_name == b.contract_name && a.blob_data == b.blob_data)

abbrev window_eq : TimeoutWindow → TimeoutWindow → Bool
window_eq no_timeout no_timeout = true
window_eq (timeout n) (timeout m) = nat_eq n m
window_eq _ _ = false

abbrev context_eq : TxContext → TxContext → Bool
context_eq a b =
    a.lane_id == b.lane_id
    && (a.block_hash == b.block_hash
        && (nat_eq a.block_height b.block_height
            && (nat_eq a.timestamp b.timestamp && nat_eq a.chain_id b.chain_id)))

abbrev registration_eq : RegisterContractEffect → RegisterContractEffect → Bool
registration_eq a b =
    a.verifier == b.verifier
    && (a.program_id == b.program_id
        && (a.state_commitment == b.state_commitment
            && (a.contract_name == b.contract_name
                && option_eq window_eq a.timeout_window b.timeout_window)))

abbrev effect_eq : OnchainEffect → OnchainEffect → Bool
effect_eq (register_contract a) (register_contract b) = registration_eq a b
effect_eq (delete_contract a) (delete_contract b) = a == b
effect_eq _ _ = false

abbrev read_eq : ContractName × StateCommitment → ContractName × StateCommitment → Bool
read_eq (n, s) (m, t) = n == m && s == t

unfoldable pub hyle_output_eq : HyleOutput → HyleOutput → Bool
unfolding list_eq
hyle_output_eq a b =
    (nat_eq a.version b.version
      && (a.initial_state == b.initial_state
          && (a.next_state == b.next_state
              && (a.identity == b.identity && nat_eq a.index b.index))))
    && ((list_eq indexed_blob_eq a.blobs b.blobs
          && (nat_eq a.tx_blob_count b.tx_blob_count
              && (a.tx_hash == b.tx_hash && bool_eq a.success b.success)))
        && (list_eq read_eq a.state_reads b.state_reads
            && (option_eq context_eq a.tx_ctx b.tx_ctx
                && (list_eq effect_eq a.onchain_effects b.onchain_effects
                    && a.program_outputs == b.program_outputs))))
