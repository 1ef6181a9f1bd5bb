-- ===== src/Sdk/Tests.antt =====
-- Calls at concrete inputs: blob 0 of "dex" calls blob 1 of "token".
use hyle.Prelude.{◌≡◌, refl, ◌⊎◌, ok, ℕ, true, Option, none, some, [], ◌∷◌, if◌then◌else◌, nat_eq}
use hyle.Prelude.Key.{string_key, nat_key}
use hyle.Prelude.Map.{lookup}
use hyle.Prelude.Sets.{mem}
use hyle.Model.{Blob, Bytes}
use hyle.Sdk.{
  BlobFormat, Calldata, ExecutionContext, StructuredBlobData, parse_calldata, parse_structured_blob,
  check_caller_callees, check_callees, check_caller, callees_of, calls_back, is_in_callee_blobs,
  take_call, is_call, as_hyle_output,
}
use hyle.Sdk.Callers.{IsCalledBy, IsCalledDirectly, caller_is_genuine}
use hyle.Sdk.Callees.{Accounts, check_calls, success-Accounts}

abbrev dex_data : StructuredBlobData
dex_data = record { caller = none; callees = some (1 ∷ []) }

abbrev token_data : StructuredBlobData
token_data = record { caller = some 0; callees = none }

-- The first byte says whose blob it is, and is the action too.
abbrev first_byte : Bytes → Option (StructuredBlobData × ℕ)
first_byte [] = none
first_byte (b ∷ bs) = if nat_eq b 1 then some (dex_data, b) else some (token_data, b)

abbrev test_format : BlobFormat ℕ
test_format = record {
  structured = λ bytes. elim (first_byte bytes) [ none ↦ none | some (s, a) ↦ some s ];
  parse = first_byte;
  same = nat_eq;
}

abbrev dex_blob : Blob
dex_blob = record { contract_name = "dex"; blob_data = 1 ∷ [] }

abbrev token_call : Blob
token_call = record { contract_name = "token"; blob_data = 2 ∷ [] }

abbrev token_calldata : Calldata
token_calldata = record {
  tx_hash = "tx";
  identity = "bob@id";
  blobs = (0, dex_blob) ∷ (1, token_call) ∷ [];
  tx_blob_count = 2;
  index = 1;
  tx_ctx = none;
}

abbrev token_context : ExecutionContext
token_context = record { callees_blobs = []; caller = "dex"; contract_name = "token" }

token_is_called : parse_calldata test_format token_calldata ≡ ok (2, token_context)
unfolding parse_calldata parse_structured_blob check_caller_callees check_callees check_caller
    callees_of calls_back lookup mem
token_is_called = refl

caller_is_genuine_example :
    IsCalledBy test_format token_calldata "dex" ⊎ IsCalledDirectly test_format token_calldata "dex"
caller_is_genuine_example =
    caller_is_genuine test_format token_calldata 2 token_context token_is_called

abbrev dex_context : ExecutionContext
dex_context = record { callees_blobs = token_call ∷ []; caller = "bob@id"; contract_name = "dex" }

dex_calls :
    check_calls test_format dex_context (("token", 2) ∷ [])
    ≡ ok (record dex_context { callees_blobs = [] })
unfolding check_calls is_in_callee_blobs take_call is_call
dex_calls = refl

dex_succeeds :
    (as_hyle_output
      (λ blobs. [])
      (3 ∷ [])
      (4 ∷ [])
      token_calldata
      (ok ([], record dex_context { callees_blobs = [] }, []))).success
    ≡ true
unfolding as_hyle_output
dex_succeeds = refl

success-Accounts_example : Accounts test_format (("token", 2) ∷ []) (token_call ∷ [])
success-Accounts_example =
    success-Accounts test_format (("token", 2) ∷ []) dex_context
      (record dex_context { callees_blobs = [] }) (λ blobs. []) (3 ∷ []) (4 ∷ []) token_calldata []
      [] dex_calls dex_succeeds
