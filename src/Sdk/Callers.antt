-- ===== src/Sdk/Callers.antt =====
-- Who the caller of a contract is.
use hyle.Prelude.{◌≡◌, ◌⊎◌, inl, inr, true, false, some, Option-cases, ok, arith, any}
use hyle.Prelude.Key.{◌==◌, nat_key, string_key}
use hyle.Prelude.Map.{lookup}
use hyle.Model.{Blob, BlobIndex, Identity}
use hyle.Sdk.{
  BlobFormat, Calldata, ExecutionContext, StructuredBlobData, lists_callee, check_caller,
  check_no_caller, check_caller_callees, parse_structured_blob, parse_calldata,
}

module _ {Action : Type 0} (format : BlobFormat Action) (calldata : Calldata) where
  -- Another blob of the transaction, for that contract, lists this one among its callees.
  abbrev pub IsCalledBy : Identity → Type 0
  IsCalledBy caller =
      (i : BlobIndex) × (blob : Blob) × (lookup i calldata.blobs ≡ some blob)
      × ((i == calldata.index) ≡ false)
      × (lists_callee format calldata.index blob ≡ true)
      × (caller ≡ blob.contract_name)

  -- The transaction's identity calls, and no blob of it lists this one among its callees.
  abbrev pub IsCalledDirectly : Identity → Type 0
  IsCalledDirectly caller =
      (caller ≡ calldata.identity)
      × (any (λ p. lists_callee format calldata.index p.1) calldata.blobs ≡ false)

  check_caller-IsCalledBy :
      (i : BlobIndex) (caller : Identity)
      → check_caller format calldata i ≡ ok caller
      → IsCalledBy caller
  unfolding check_caller lists_callee
  check_caller-IsCalledBy i caller e = elim (Option-cases (lookup i calldata.blobs)) [
    | inl f ↦ absurd (ground arith)
    | inr (blob, f) ↦ (i, blob, f, ground arith, ground arith, ground arith)
  ]

  check_no_caller-IsCalledDirectly :
      (caller : Identity) → check_no_caller format calldata ≡ ok caller → IsCalledDirectly caller
  unfolding check_no_caller
  check_no_caller-IsCalledDirectly caller e = (ground arith, ground arith)

  check-IsCalled :
      (s : StructuredBlobData) (caller : Identity)
      → check_caller_callees format calldata s ≡ ok caller
      → IsCalledBy caller ⊎ IsCalledDirectly caller
  unfolding check_caller_callees
  check-IsCalled s caller e = elim (Option-cases s.caller) [
    | inl f ↦ inr (check_no_caller-IsCalledDirectly caller (ground arith))
    | inr (i, f) ↦ inl (check_caller-IsCalledBy i caller (ground arith))
  ]

  -- The caller that a contract sees is the contract of another blob that lists the contract's blob
  -- among its callees, or, where no blob lists it, the identity of the transaction.
  pub caller_is_genuine :
      (action : Action) (ctx : ExecutionContext)
      → parse_calldata format calldata ≡ ok (action, ctx)
      → IsCalledBy ctx.caller ⊎ IsCalledDirectly ctx.caller
  unfolding parse_calldata
  caller_is_genuine action ctx e =
      elim (Option-cases (parse_structured_blob format calldata.blobs calldata.index)) [
        | inl f ↦ absurd (ground arith)
        | inr ((name, s, a), f) ↦ check-IsCalled s ctx.caller (ground arith)
      ]
