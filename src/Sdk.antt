-- ===== src/Sdk.antt =====
-- crates/contract-sdk/src/utils.rs and caller.rs: what a contract learns of the blobs around its own,
-- who called it and which blobs it has to account for.
pub mod Callers
pub mod Callees
mod Tests
use hyle.Prelude.{
  ◌≡◌, ℕ, Bool, true, false, not, ◌&&◌, Option, none, some, List, [], ◌∷◌, if◌then◌else◌, any,
  is_empty, Result, ok, err, ◌>>=◌, ◌>>◌, ensure,
}
use hyle.Prelude.Key.{◌==◌, string_key, nat_key}
use hyle.Prelude.Map.{lookup}
use hyle.Prelude.Sets.{mem, is_key}
use hyle.Model.{
  Blob, BlobIndex, Bytes, ContractName, Identity, IndexedBlobs, StateCommitment, HyleOutput,
  OnchainEffect, TxContext, TxHash,
}

-- `StructuredBlobData`, without its parameters.
pub record StructuredBlobData : Type 0 where
  pub caller : Option BlobIndex
  pub callees : Option (List BlobIndex)

-- Borsh, for a contract's type of actions: `structured` reads the callers' part of a blob alone
-- (`StructuredBlobData<DropEndOfReader>`), `parse` the whole of it. `same` is the `PartialEq` of actions.
pub record BlobFormat (Action : Type 0) : Type 0 where
  pub structured : Bytes → Option StructuredBlobData
  pub parse : Bytes → Option (StructuredBlobData × Action)
  pub same : Action → Action → Bool

-- `private_input`, which no code here reads, is left out.
pub record Calldata : Type 0 where
  pub tx_hash : TxHash
  pub identity : Identity
  pub blobs : IndexedBlobs
  pub tx_blob_count : ℕ
  pub index : BlobIndex
  pub tx_ctx : Option TxContext

pub record ExecutionContext : Type 0 where
  pub callees_blobs : List Blob
  pub caller : Identity
  pub contract_name : ContractName

pub data SdkError : Type 0 where
  cannot_parse_blob callees_mismatch self_reference caller_not_found : SdkError
  cannot_parse_caller caller_has_no_callees incorrect_caller claimed_as_callee : SdkError
  not_in_callees : SdkError

abbrev pub indices_eq : List BlobIndex → List BlobIndex → Bool
indices_eq [] [] = true
indices_eq (a ∷ as') (b ∷ bs) = a == b && indices_eq as' bs
indices_eq _ _ = false

module _ {Action : Type 0} (format : BlobFormat Action) where
  -- The blob names this index as its caller.
  unfoldable pub calls_back : BlobIndex → Blob → Bool
  calls_back index blob = elim (format.structured blob.blob_data) [
    | some s ↦ is_key s.caller index
    | none ↦ false
  ]

  -- The blob lists this index among its callees.
  unfoldable pub lists_callee : BlobIndex → Blob → Bool
  lists_callee index blob = elim (format.structured blob.blob_data) [
    | some s ↦ elim s.callees [ some callees ↦ mem index callees | none ↦ false ]
    | none ↦ false
  ]

  unfoldable pub blobs_with_this_as_caller : BlobIndex → IndexedBlobs → List BlobIndex
  unfolding calls_back
  blobs_with_this_as_caller index [] = []
  blobs_with_this_as_caller index ((i, blob) ∷ blobs) =
      let rest = blobs_with_this_as_caller index blobs in
      if calls_back index blob then i ∷ rest else rest

  -- The blob that is named as the caller.
  unfoldable pub check_caller : Calldata → BlobIndex → Result SdkError Identity
  check_caller calldata caller_index =
      if caller_index == calldata.index
      then err self_reference
      else elim (lookup caller_index calldata.blobs) [
        | none ↦ err caller_not_found
        | some blob ↦ elim (format.structured blob.blob_data) [
          | none ↦ err cannot_parse_caller
          | some s ↦ elim s.callees [
            | none ↦ err caller_has_no_callees
            | some callees ↦
                if mem calldata.index callees then ok blob.contract_name else err incorrect_caller
          ]
        ]
      ]

  unfoldable pub check_no_caller : Calldata → Result SdkError Identity
  unfolding lists_callee
  check_no_caller calldata =
      if any (λ p. lists_callee calldata.index p.1) calldata.blobs
      then err claimed_as_callee
      else ok calldata.identity

  unfoldable pub check_callees : Calldata → StructuredBlobData → Result SdkError (Unit {0})
  unfolding blobs_with_this_as_caller
  check_callees calldata s = elim s.callees [
    | none ↦ ok tt
    | some callees ↦
        ensure (indices_eq callees (blobs_with_this_as_caller calldata.index calldata.blobs))
          callees_mismatch
  ]

  unfoldable pub check_caller_callees : Calldata → StructuredBlobData → Result SdkError Identity
  unfolding check_callees check_caller check_no_caller
  check_caller_callees calldata s = do
    check_callees calldata s
    elim s.caller [
      | some caller_index ↦ check_caller calldata caller_index
      | none ↦ check_no_caller calldata
    ]

  unfoldable pub parse_structured_blob :
      IndexedBlobs → BlobIndex → Option (ContractName × StructuredBlobData × Action)
  parse_structured_blob blobs index = elim (lookup index blobs) [
    | none ↦ none
    | some blob ↦ elim (format.parse blob.blob_data) [
      | none ↦ none
      | some (s, action) ↦ some (blob.contract_name, s, action)
    ]
  ]

  unfoldable pub callees_of : BlobIndex → IndexedBlobs → List Blob
  unfolding calls_back
  callees_of index [] = []
  callees_of index ((i, blob) ∷ blobs) =
      let rest = callees_of index blobs in if calls_back index blob then blob ∷ rest else rest

  unfoldable pub parse_calldata : Calldata → Result SdkError (Action × ExecutionContext)
  unfolding parse_structured_blob check_caller_callees callees_of
  parse_calldata calldata = elim (parse_structured_blob calldata.blobs calldata.index) [
    | none ↦ err cannot_parse_blob
    | some (name, s, action) ↦ do
      caller ← check_caller_callees calldata s
      ok (
        action,
        record {
          callees_blobs = callees_of calldata.index calldata.blobs;
          caller = caller;
          contract_name = name;
        },
      )
  ]

  -- The blob is for the contract and holds the action.
  unfoldable pub is_call : ContractName → Action → Blob → Bool
  is_call name action blob =
      if blob.contract_name == name
      then elim (format.parse blob.blob_data) [
        | some (s, parameters) ↦ format.same parameters action
        | none ↦ false
      ]
      else false

  -- `position` and `remove`: the list without the first blob that matches.
  unfoldable pub take_call : ContractName → Action → List Blob → Option (List Blob)
  unfolding is_call
  take_call name action [] = none
  take_call name action (blob ∷ blobs) =
      let rest = take_call name action blobs in
      if is_call name action blob
      then some blobs
      else elim rest [ some left ↦ some (blob ∷ left) | none ↦ none ]

  unfoldable pub is_in_callee_blobs :
      ExecutionContext → ContractName → Action → Result SdkError ExecutionContext
  unfolding take_call
  is_in_callee_blobs ctx name action = elim (take_call name action ctx.callees_blobs) [
    | some left ↦ ok (record ctx { callees_blobs = left })
    | none ↦ err not_in_callees
  ]

-- The result of a contract's run: its output, the context that is left and its effects, or a message.
abbrev pub RunResult : Type 0
RunResult = Result Bytes (Bytes × ExecutionContext × List OnchainEffect)

unfoldable pub fail : Calldata → StateCommitment → Bytes → HyleOutput
fail calldata initial message = record {
  version = 1;
  initial_state = initial;
  next_state = initial;
  identity = calldata.identity;
  index = calldata.index;
  blobs = calldata.blobs;
  tx_blob_count = calldata.tx_blob_count;
  tx_hash = calldata.tx_hash;
  success = false;
  state_reads = [];
  tx_ctx = calldata.tx_ctx;
  onchain_effects = [];
  program_outputs = message;
}

-- `not_consumed` prints the blobs that are left.
unfoldable pub as_hyle_output :
    (List Blob → Bytes) → StateCommitment → StateCommitment → Calldata → RunResult → HyleOutput
unfolding fail
as_hyle_output not_consumed initial next calldata (err message) = fail calldata initial message
as_hyle_output not_consumed initial next calldata (ok (output, ctx, effects)) =
    if is_empty ctx.callees_blobs
    then record (fail calldata initial output) {
      next_state = next;
      success = true;
      onchain_effects = effects;
    }
    else fail calldata initial (not_consumed ctx.callees_blobs)
