-- ===== src/NodeState/Tld/Laws.antt =====
-- What the node's own contract can do to the others, and not to itself.
use hyle.Prelude.{
  ◌≡◌, refl, ◌⊎◌, Bool, false, not, Option, none, some, [], ◌∷◌, ok, arith, is_some, inl, inr,
  Result-cases, Bool-cases,
}
use hyle.Prelude.Key.{◌==◌, string_key, key_eq, key_refl}
use hyle.Prelude.Map.{lookup, lookup-insert}
use hyle.Prelude.Sets.{is_key}
use hyle.Model.{Blob, Codec, ContractName, RegisterContractAction}
use hyle.NodeState.Changes.{
  ModifiedContractData, Contracts, ContractChanges, get_contract, all_fields, register, delete,
}
use hyle.NodeState.Tld.{
  TldAction, registers, deletes, updates_program_id, updates_timeout_window, nukes, unknown,
  contract_of_register, handle_register_blob, handle_delete_blob, handle_update_program_id_blob,
  handle_update_timeout_window_blob, with_program_id, with_timeout_window, tld_action,
  run_tld_action, handle_blob_for_hyle_tld,
}

-- The contract was deleted by the transaction that is being settled.
abbrev pub is_deleted : ContractName → ContractChanges → Bool
is_deleted n changes = elim (lookup n changes) [ none ↦ false | some c ↦ not (is_some c.contract) ]

-- The one contract whose entry an action writes.
abbrev pub target : TldAction → Option ContractName
target (registers a) = some a.contract_name
target (deletes a) = some a.contract_name
target (updates_program_id a) = some a.contract_name
target (updates_timeout_window a) = some a.contract_name
target nukes = none
target unknown = none

module _ (codec : Codec) (contracts : Contracts) where
  abbrev registered : RegisterContractAction → ModifiedContractData
  registered reg = record {
    contract = some (contract_of_register reg);
    fields = all_fields;
    side_effects = register reg.constructor_metadata ∷ [];
  }

  -- A registration that succeeds writes the contract of the action, under a name that no contract
  -- has, nor had when an earlier blob deleted it; only `hyle` itself may be registered again.
  pub register_never_overwrites :
      (changes changes' : ContractChanges) (reg : RegisterContractAction)
      → handle_register_blob codec contracts changes reg ≡ ok changes'
      → (get_contract contracts changes' reg.contract_name ≡ ok (contract_of_register reg))
        × (lookup reg.contract_name changes ≡ none)
        × ((lookup reg.contract_name contracts ≡ none) ⊎ (reg.contract_name ≡ "hyle"))
  unfolding handle_register_blob get_contract
  register_never_overwrites changes changes' reg e = (
    ground (
      arith,
      lookup-insert reg.contract_name reg.contract_name (registered reg) changes,
      key_refl reg.contract_name,
    ),
    ground arith,
    elim (Bool-cases (reg.contract_name == "hyle")) [
      | inl h ↦ inr (key_eq reg.contract_name "hyle" h)
      | inr h ↦ inl (ground arith)
    ],
  )

  -- An action writes the entry of its own contract alone.
  run_tld_action-frame :
      (changes changes' : ContractChanges) (a : TldAction) (n : ContractName)
      → run_tld_action codec contracts changes a ≡ ok changes'
      → is_key (target a) n ≡ false
      → lookup n changes' ≡ lookup n changes
  unfolding run_tld_action
  run_tld_action-frame changes changes' (registers a) n e t =
      unfold handle_register_blob in
      ground (arith, lookup-insert a.contract_name n (registered a) changes)
  run_tld_action-frame changes changes' (deletes a) n e t =
      unfold handle_delete_blob in
      ground (
        arith,
        lookup-insert a.contract_name n
            (record { contract = none; fields = all_fields; side_effects = delete ∷ [] }) changes,
      )
  run_tld_action-frame changes changes' (updates_program_id a) n e t =
      elim (Result-cases (get_contract contracts changes a.contract_name)) [
        | inr (x, f) ↦ absurd (unfold handle_update_program_id_blob in ground arith)
        | inl (c, f) ↦
            unfold handle_update_program_id_blob in
            ground (
              arith,
              lookup-insert a.contract_name n (with_program_id a c (lookup a.contract_name changes))
                  changes,
            )
      ]
  run_tld_action-frame changes changes' (updates_timeout_window a) n e t =
      elim (Result-cases (get_contract contracts changes a.contract_name)) [
        | inr (x, f) ↦ absurd (unfold handle_update_timeout_window_blob in ground arith)
        | inl (c, f) ↦
            unfold handle_update_timeout_window_blob in
            ground (
              arith,
              lookup-insert a.contract_name n
                  (with_timeout_window a c (lookup a.contract_name changes)) changes,
            )
      ]
  run_tld_action-frame changes changes' nukes n e t = ground arith
  run_tld_action-frame changes changes' unknown n e t = ground arith

  -- Of the actions that succeed, only a registration may be about `hyle` itself.
  run_tld_action-hyle :
      (changes changes' : ContractChanges) (a : TldAction)
      → run_tld_action codec contracts changes a ≡ ok changes'
      → (is_key (target a) "hyle" ≡ false) ⊎ ((reg : RegisterContractAction) × (a ≡ registers reg))
  unfolding run_tld_action
  run_tld_action-hyle changes changes' (registers a) e = inr (a, refl)
  run_tld_action-hyle changes changes' (deletes a) e =
      inl (unfold handle_delete_blob in ground arith)
  run_tld_action-hyle changes changes' (updates_program_id a) e =
      inl (unfold handle_update_program_id_blob in ground arith)
  run_tld_action-hyle changes changes' (updates_timeout_window a) e =
      inl (unfold handle_update_timeout_window_blob in ground arith)
  run_tld_action-hyle changes changes' nukes e = inl refl
  run_tld_action-hyle changes changes' unknown e = inl refl

  register_keeps_hyle :
      (changes changes' : ContractChanges) (reg : RegisterContractAction)
      → handle_register_blob codec contracts changes reg ≡ ok changes'
      → is_deleted "hyle" changes ≡ false
      → is_deleted "hyle" changes' ≡ false
  unfolding handle_register_blob
  register_keeps_hyle changes changes' reg e d =
      ground (arith, lookup-insert reg.contract_name "hyle" (registered reg) changes)

  action_keeps_hyle :
      (changes changes' : ContractChanges) (a : TldAction)
      → run_tld_action codec contracts changes a ≡ ok changes'
      → is_deleted "hyle" changes ≡ false
      → is_deleted "hyle" changes' ≡ false
  action_keeps_hyle changes changes' a e d = elim (run_tld_action-hyle changes changes' a e) [
    | inl other ↦ rw (run_tld_action-frame changes changes' a "hyle" e other, is_deleted) d
    | inr (reg, same) ↦
        register_keeps_hyle changes changes' reg (unfold run_tld_action in (rw same at e)) d
  ]

  -- No blob of the `hyle` contract deletes the `hyle` contract.
  pub hyle_survives :
      (changes changes' : ContractChanges) (blob : Blob)
      → handle_blob_for_hyle_tld codec contracts changes blob ≡ ok changes'
      → is_deleted "hyle" changes ≡ false
      → is_deleted "hyle" changes' ≡ false
  unfolding handle_blob_for_hyle_tld
  hyle_survives changes changes' blob e d =
      action_keeps_hyle changes changes' (tld_action codec blob) e d

  -- A blob of the `hyle` contract that succeeds writes the entry of at most one contract.
  pub tld_blob-frame :
      (changes changes' : ContractChanges) (blob : Blob) (n : ContractName)
      → handle_blob_for_hyle_tld codec contracts changes blob ≡ ok changes'
      → is_key (target (tld_action codec blob)) n ≡ false
      → lookup n changes' ≡ lookup n changes
  unfolding handle_blob_for_hyle_tld
  tld_blob-frame changes changes' blob n e t =
      run_tld_action-frame changes changes' (tld_action codec blob) n e t
