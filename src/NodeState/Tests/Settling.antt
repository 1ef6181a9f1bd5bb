-- ===== src/NodeState/Tests/Settling.antt =====
-- The settlement of blobs, at concrete inputs.
use hyle.Prelude.{◌≡◌, ◌≢◌, ◌⊎◌, refl, true, false, none, some, List, [], ◌∷◌, ◌++◌, ok, length}
use hyle.Prelude.Key.{string_key}
use hyle.Prelude.Map.{lookup, insert}
use hyle.Model.{Contract, ContractName, UnsettledBlobMetadata}
use hyle.NodeState.Changes.{
  ContractChanges, get_contract, all_fields, no_fields, register, update_program_id,
}
use hyle.NodeState.Registration.{
  split_once, validate_contract_name_registration, validate_contract_registration_metadata,
  validate_state_commitment_size,
}
use hyle.NodeState.Tld.{
  contract_of_register, handle_register_blob, handle_blob_for_hyle_tld, tld_action,
}
use hyle.NodeState.Tld.Laws.{is_deleted, register_never_overwrites, hyle_survives, tld_blob-frame}
use hyle.NodeState.Proof.{process_proof, apply_effects, check_state_reads}
use hyle.NodeState.Proof.Laws.{
  AllCurrent, AllAllowed, NoneAbout, process_proof_checked, process_proof_exact,
}
use hyle.NodeState.Settle.{SettlementResult, not_ready, settled, settle_blobs}
use hyle.NodeState.Settle.Relation.{Settles}
use hyle.NodeState.Settle.Sound.{settle_blobs_sound}
use hyle.NodeState.Settle.Complete.{settle_blobs_ready}
use hyle.NodeState.Fixtures.{
  token_moved, test_codec, contracts, token, token_blob, hyle_blob, register_dex, output_of,
}

abbrev no_changes : ContractChanges
no_changes = []

-- What the registration of "dex" writes.
abbrev dex_registered : ContractChanges
dex_registered =
    (
      "dex",
      record {
        contract = some (contract_of_register register_dex);
        fields = all_fields;
        side_effects = register none ∷ [];
      },
    )
    ∷ []

abbrev token_updated : ContractChanges
token_updated =
    (
      "token",
      record {
        contract = some (record token { program_id = 9 ∷ [] });
        fields = record no_fields { program_id = true };
        side_effects = update_program_id ∷ [];
      },
    )
    ∷ []

register_dex_runs :
    handle_register_blob test_codec contracts no_changes register_dex ≡ ok dex_registered
unfolding handle_register_blob validate_contract_registration_metadata
    validate_contract_name_registration validate_state_commitment_size split_once lookup insert
register_dex_runs = refl

register_never_overwrites_example :
    (get_contract contracts dex_registered "dex" ≡ ok (contract_of_register register_dex))
    × (lookup "dex" no_changes ≡ none)
    × ((lookup "dex" contracts ≡ none) ⊎ (register_dex.contract_name ≡ "hyle"))
register_never_overwrites_example =
    register_never_overwrites test_codec contracts no_changes dex_registered register_dex
      register_dex_runs

hyle_blob_runs :
    handle_blob_for_hyle_tld test_codec contracts no_changes hyle_blob.blob ≡ ok dex_registered
unfolding handle_blob_for_hyle_tld
hyle_blob_runs = register_dex_runs

hyle_survives_example : is_deleted "hyle" dex_registered ≡ false
unfolding lookup
hyle_survives_example =
    hyle_survives test_codec contracts no_changes dex_registered hyle_blob.blob hyle_blob_runs refl

token_unchanged : lookup "token" dex_registered ≡ lookup "token" no_changes
unfolding tld_action
token_unchanged =
    tld_blob-frame test_codec contracts no_changes dex_registered hyle_blob.blob "token"
      hyle_blob_runs refl

good_proof_runs :
    process_proof test_codec contracts no_changes "token"
      (3 ∷ [], output_of true (10 ∷ []) (11 ∷ []))
      token_blob
    ≡ ok token_moved
unfolding process_proof validate_state_commitment_size get_contract check_state_reads apply_effects
    lookup insert
good_proof_runs = refl

first_proof_is_checked :
    (c : Contract) × (get_contract contracts no_changes "token" ≡ ok c)
    × ((output_of true (10 ∷ []) (11 ∷ [])).initial_state ≡ c.state)
    × (3 ∷ [] ≡ c.program_id)
    × AllCurrent contracts no_changes (("vault", 50 ∷ []) ∷ [])
    × AllAllowed c.name []
first_proof_is_checked =
    process_proof_checked test_codec contracts no_changes token_moved "token" (3 ∷ [])
      (output_of true (10 ∷ []) (11 ∷ [])) token_blob good_proof_runs

process_proof_exact_example :
    (NoneAbout "token" []
      → get_contract contracts token_moved "token" ≡ ok (record token { state = 11 ∷ [] }))
    × ((n : ContractName)
        → string_key.beq "token" n ≡ false
        → NoneAbout n []
        → lookup n token_moved ≡ lookup n no_changes)
unfolding get_contract lookup
process_proof_exact_example =
    process_proof_exact test_codec contracts no_changes token_moved (3 ∷ [])
      (output_of true (10 ∷ []) (11 ∷ [])) token_blob token refl good_proof_runs

-- The whole transaction: the node registers "dex", then the token's second proof is taken.
abbrev both : List UnsettledBlobMetadata
both = hyle_blob ∷ token_blob ∷ []

abbrev both_settled : SettlementResult
both_settled = record {
  contract_changes = dex_registered ++ token_moved;
  blob_proof_output_indices = 0 ∷ 1 ∷ [];
}

both_settle : (settle_blobs test_codec contracts both no_changes [] []).1 ≡ settled both_settled
unfolding settle_blobs handle_blob_for_hyle_tld handle_register_blob
    validate_contract_registration_metadata validate_contract_name_registration
    validate_state_commitment_size split_once process_proof get_contract check_state_reads
    apply_effects lookup insert
both_settle = refl

settle_blobs_sound_example :
    Settles test_codec contracts both no_changes [] both_settled
    × (length both_settled.blob_proof_output_indices ≡ length both)
settle_blobs_sound_example =
    settle_blobs_sound test_codec contracts both no_changes [] both_settled both_settle

settle_blobs_ready_example : (settle_blobs test_codec contracts both no_changes [] []).1 ≢ not_ready
settle_blobs_ready_example =
    settle_blobs_ready test_codec contracts {blobs = both} [] settle_blobs_sound_example.0
