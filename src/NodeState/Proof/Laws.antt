-- ===== src/NodeState/Proof/Laws.antt =====
-- What a proof that is processed was checked against, and what it changes.
use hyle.Prelude.{
  ◌≡◌, ◌∙◌, false, some, List, [], ◌∷◌, ok, ◌>>=◌, arith, inl, inr, Option-cases, Result-cases,
}
use hyle.Prelude.Key.{◌==◌, string_key, key_eq, key_refl}
use hyle.Prelude.Map.{lookup, insert, lookup-insert}
use hyle.Model.{
  Blob, Codec, Contract, ContractName, HyleOutput, OnchainEffect, register_contract,
  delete_contract, ProgramId, StateCommitment, UnsettledBlobMetadata, bytes_key,
}
use hyle.NodeState.Changes.{Contracts, ContractChanges, get_contract, all_fields, register}
use hyle.NodeState.Registration.{
  validate_contract_name_registration, validate_contract_registration_metadata,
  validate_state_commitment_size,
}
use hyle.NodeState.Proof.{
  apply_effect, apply_effects, check_state_reads, contract_of_effect, mark_deleted, with_state,
  process_proof,
}

abbrev pub effect_name : OnchainEffect → ContractName
effect_name (register_contract e) = e.contract_name
effect_name (delete_contract n) = n

-- Every effect is about a name that the contract may register.
abbrev pub AllAllowed : ContractName → List OnchainEffect → Type 0
AllAllowed owner [] = Unit {0}
AllAllowed owner (e ∷ es) =
    (validate_contract_name_registration owner (effect_name e) ≡ ok tt) × AllAllowed owner es

-- No effect is about this name.
abbrev pub NoneAbout : ContractName → List OnchainEffect → Type 0
NoneAbout n [] = Unit {0}
NoneAbout n (e ∷ es) = (effect_name e == n ≡ false) × NoneAbout n es

-- Every state that the proof read is the current one.
abbrev pub AllCurrent : Contracts → ContractChanges → List (ContractName × StateCommitment) → Type 0
AllCurrent contracts changes [] = Unit {0}
AllCurrent contracts changes ((n, state) ∷ reads) =
    ((c : Contract) × (get_contract contracts changes n ≡ ok c) × (c.state ≡ state))
    × AllCurrent contracts changes reads

module _ (codec : Codec) (contracts : Contracts) where
  check_state_reads-AllCurrent :
      (changes : ContractChanges) (reads : List (ContractName × StateCommitment))
      → check_state_reads contracts changes reads ≡ ok tt
      → AllCurrent contracts changes reads
  unfolding check_state_reads
  check_state_reads-AllCurrent changes [] e = tt
  check_state_reads-AllCurrent changes ((n, state) ∷ reads) e =
      elim (Result-cases (get_contract contracts changes n)) [
        | inr (x, f) ↦ absurd (ground arith)
        | inl (c, f) ↦ (
          (c, f, ground (arith, key_eq state c.state)),
          check_state_reads-AllCurrent changes reads (ground arith),
        )
      ]

  apply_effect-allowed :
      (contract : Contract) (blob : Blob) (changes changes' : ContractChanges) (e : OnchainEffect)
      → apply_effect codec contract blob changes e ≡ ok changes'
      → (validate_contract_name_registration contract.name (effect_name e) ≡ ok tt)
        × ((n : ContractName) → effect_name e == n ≡ false → lookup n changes' ≡ lookup n changes)
  unfolding apply_effect validate_contract_registration_metadata
  apply_effect-allowed contract blob changes changes' (register_contract e) h =
      elim (Option-cases (codec.register blob.blob_data)) [
        | inl f ↦ absurd (ground arith)
        | inr (action, f) ↦ (
          ground arith,
          λ n p. ground (
            arith,
            lookup-insert e.contract_name n
                (record {
                  contract = some (contract_of_effect contract e);
                  fields = all_fields;
                  side_effects = register action.constructor_metadata ∷ [];
                })
                changes,
          ),
        )
      ]
  apply_effect-allowed contract blob changes changes' (delete_contract m) h = (
    ground arith,
    λ n p. ground (arith, lookup-insert m n (mark_deleted (lookup m changes)) changes),
  )

  apply_effects-allowed :
      (contract : Contract) (blob : Blob) (changes changes' : ContractChanges)
      (es : List OnchainEffect)
      → apply_effects codec contract blob changes es ≡ ok changes'
      → AllAllowed contract.name es
        × ((n : ContractName) → NoneAbout n es → lookup n changes' ≡ lookup n changes)
  unfolding apply_effects
  apply_effects-allowed contract blob changes changes' [] h = (tt, λ n p. ground arith)
  apply_effects-allowed contract blob changes changes' (e ∷ es) h =
      elim (Result-cases (apply_effect codec contract blob changes e)) [
        | inr (x, f) ↦ absurd (ground arith)
        | inl (c, f) ↦
            (let now = apply_effect-allowed contract blob changes c e f in
              let later = apply_effects-allowed contract blob c changes' es (rw (f, ◌>>=◌) at h) in
              ((now.0, later.0), λ n p. later.1 n p.1 ∙ now.1 n p.0))
      ]

  -- The steps of a proof that was processed.
  record Processed (changes changes' : ContractChanges) (name : ContractName)
      (program_id : ProgramId) (output : HyleOutput) (blob : Blob) : Type 0 where
    contract : Contract
    effected : ContractChanges
    found : get_contract contracts changes name ≡ ok contract
    small : validate_state_commitment_size output.next_state ≡ ok tt
    from_state : output.initial_state ≡ contract.state
    by_program : program_id ≡ contract.program_id
    reads : check_state_reads contracts changes output.state_reads ≡ ok tt
    effects : apply_effects codec contract blob changes output.onchain_effects ≡ ok effected
    written :
        changes'
        ≡ insert contract.name
            (with_state output.next_state contract (lookup contract.name effected))
            effected

  processed :
      (changes changes' : ContractChanges) (name : ContractName) (program_id : ProgramId)
      (output : HyleOutput) (blob : UnsettledBlobMetadata)
      → process_proof codec contracts changes name (program_id, output) blob ≡ ok changes'
      → Processed changes changes' name program_id output blob.blob
  unfolding process_proof
  processed changes changes' name program_id output blob h =
      elim (Result-cases (get_contract contracts changes name)) [
        | inr (x, f) ↦ absurd (ground arith)
        | inl (c, f) ↦
            elim (Result-cases (apply_effects codec c blob.blob changes output.onchain_effects)) [
              | inr (x, g) ↦ absurd (ground arith)
              | inl (d, g) ↦ record {
                contract = c;
                effected = d;
                found = f;
                small = ground arith;
                from_state = ground (arith, key_eq output.initial_state c.state);
                by_program = ground (arith, key_eq program_id c.program_id);
                reads = ground arith;
                effects = g;
                written = ground arith;
              }
            ]
      ]

  -- A proof is processed only if it starts from the current state and program of its contract, every
  -- state that it read is current, and its effects are about names that the contract may register.
  pub process_proof_checked :
      (changes changes' : ContractChanges) (name : ContractName) (program_id : ProgramId)
      (output : HyleOutput) (blob : UnsettledBlobMetadata)
      → process_proof codec contracts changes name (program_id, output) blob ≡ ok changes'
      → (c : Contract) × (get_contract contracts changes name ≡ ok c)
        × (output.initial_state ≡ c.state)
        × (program_id ≡ c.program_id)
        × AllCurrent contracts changes output.state_reads
        × AllAllowed c.name output.onchain_effects
  process_proof_checked changes changes' name program_id output blob h =
      let p = processed changes changes' name program_id output blob h in
      (
        p.contract,
        p.found,
        p.from_state,
        p.by_program,
        check_state_reads-AllCurrent changes output.state_reads p.reads,
        (apply_effects-allowed p.contract blob.blob changes p.effected output.onchain_effects
            p.effects).0,
      )

  -- A processed proof whose effects are not about its own contract moves that contract to the
  -- proof's next state and changes no other field of it; and no contract but this one and those
  -- that the effects are about has its entry changed.
  pub process_proof_exact :
      (changes changes' : ContractChanges) (program_id : ProgramId) (output : HyleOutput)
      (blob : UnsettledBlobMetadata) (c : Contract)
      → get_contract contracts changes c.name ≡ ok c
      → process_proof codec contracts changes c.name (program_id, output) blob ≡ ok changes'
      → (NoneAbout c.name output.onchain_effects
          → get_contract contracts changes' c.name ≡ ok (record c { state = output.next_state }))
        × ((n : ContractName)
            → c.name == n ≡ false
            → NoneAbout n output.onchain_effects
            → lookup n changes' ≡ lookup n changes)
  process_proof_exact changes changes' program_id output blob c found h =
      let p = processed changes changes' c.name program_id output blob h in
      let same : p.contract ≡ c = ground (arith, p.found, found) in
      let allowed =
        apply_effects-allowed p.contract blob.blob changes p.effected output.onchain_effects
          p.effects in
      let m = p.contract.name in
      let entry = with_state output.next_state p.contract (lookup m p.effected) in
      (
        λ none_about.
            unfold get_contract in
            ground (
              arith,
              same,
              p.written,
              found,
              allowed.1 c.name none_about,
              lookup-insert m c.name entry p.effected,
              key_refl c.name,
            ),
        λ n other none_about.
            ground
              (arith, same, p.written, allowed.1 n none_about, lookup-insert m n entry p.effected),
      )
