-- ===== src/Sdk/Callees.antt =====
-- The blobs that a contract accounts for.
use hyle.Prelude.{
  ◌≡◌, refl, sym, ap, subst, ◌∙◌, true, some, List, [], ◌∷◌, ◌++◌, Option-cases, Bool-cases, inl,
  inr, Result, ok, err, arith, is_empty,
}
use hyle.Model.{Blob, Bytes, ContractName, OnchainEffect, StateCommitment}
use hyle.Sdk.{
  BlobFormat, Calldata, ExecutionContext, SdkError, is_call, take_call, is_in_callee_blobs,
  as_hyle_output,
}

module _ {Action : Type 0} (format : BlobFormat Action) where
  -- Each blob answers one call, and each call has its blob.
  pub data Accounts : List (ContractName × Action) → List Blob → Type 0 where
    no_calls : Accounts [] []
    one_call :
        (name : ContractName) (action : Action) (calls : List (ContractName × Action))
        (before after : List Blob) (blob : Blob)
        → is_call format name action blob ≡ true
        → Accounts calls (before ++ after)
        → Accounts ((name, action) ∷ calls) (before ++ blob ∷ after)

  -- A contract that checks these calls one after the other.
  unfoldable pub check_calls :
      ExecutionContext → List (ContractName × Action) → Result SdkError ExecutionContext
  check_calls ctx [] = ok ctx
  check_calls ctx ((name, action) ∷ calls) = elim (is_in_callee_blobs format ctx name action) [
    | err e ↦ err e
    | ok ctx' ↦ check_calls ctx' calls
  ]

  -- The blob that a call takes, with those around it.
  abbrev Taken : ContractName → Action → List Blob → List Blob → Type 0
  Taken name action blobs left =
      (before : List Blob) × (blob : Blob) × (after : List Blob) × (blobs ≡ before ++ blob ∷ after)
      × (left ≡ before ++ after)
      × (is_call format name action blob ≡ true)

  take_call-Taken :
      (name : ContractName) (action : Action) (blobs left : List Blob)
      → take_call format name action blobs ≡ some left
      → Taken name action blobs left
  unfolding take_call
  take_call-Taken name action [] left e = absurd (ground arith)
  take_call-Taken name action (blob ∷ blobs) left e =
      elim (Bool-cases (is_call format name action blob)) [
        | inl f ↦ ([], blob, blobs, refl, ground arith, f)
        | inr f ↦ elim (Option-cases (take_call format name action blobs)) [
          | inl g ↦ absurd (ground arith)
          | inr (rest, g) ↦
              let kept_all : left ≡ blob ∷ rest = ground arith in
              let (before, found, after, same, kept, call) =
                take_call-Taken name action blobs rest g in
              (
                blob ∷ before,
                found,
                after,
                ap (λ bs. blob ∷ bs) same,
                kept_all ∙ ap (λ bs. blob ∷ bs) kept,
                call,
              )
        ]
      ]

  all_gone : (blobs : List Blob) → is_empty blobs ≡ true → Accounts [] blobs
  all_gone [] e = no_calls
  all_gone (b ∷ bs) e = absurd (ground arith)

  calls-Accounts :
      (calls : List (ContractName × Action)) (ctx ctx' : ExecutionContext)
      → check_calls ctx calls ≡ ok ctx'
      → is_empty ctx'.callees_blobs ≡ true
      → Accounts calls ctx.callees_blobs
  unfolding check_calls is_in_callee_blobs
  calls-Accounts [] ctx ctx' e none_left = all_gone ctx.callees_blobs (ground arith)
  calls-Accounts ((name, action) ∷ calls) ctx ctx' e none_left =
      elim (Option-cases (take_call format name action ctx.callees_blobs)) [
        | inl f ↦ absurd (ground arith)
        | inr (left, f) ↦
            let (before, blob, after, same, kept, call) =
              take_call-Taken name action ctx.callees_blobs left f in
            subst (Accounts ((name, action) ∷ calls)) (sym same) (
              one_call name action calls before after blob call (
                subst (Accounts calls) kept (
                  calls-Accounts calls (record ctx { callees_blobs = left }) ctx' (ground arith)
                    none_left)))
      ]

  -- Where a contract makes its calls one after the other and its output is a success, each of the
  -- callees' blobs answers exactly one of the calls.
  pub success-Accounts :
      (calls : List (ContractName × Action)) (ctx ctx' : ExecutionContext)
      (not_consumed : List Blob → Bytes) (initial next : StateCommitment) (calldata : Calldata)
      (output : Bytes) (effects : List OnchainEffect)
      → check_calls ctx calls ≡ ok ctx'
      → (as_hyle_output not_consumed initial next calldata (ok (output, ctx', effects))).success
        ≡ true
      → Accounts calls ctx.callees_blobs
  unfolding as_hyle_output
  success-Accounts calls ctx ctx' not_consumed initial next calldata output effects e s =
      calls-Accounts calls ctx ctx' e (ground arith)
