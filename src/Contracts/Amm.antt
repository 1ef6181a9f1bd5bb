-- ===== src/Contracts/Amm.antt =====
-- The automated market maker of crates/contracts/amm/src/lib.rs: pairs of tokens with their reserves.
-- A method that takes `&mut self` returns its result and the state that it leaves, on an error too.
-- A division by zero is the error `panicked`.
pub mod Reserves
pub mod Quotes
pub mod Payments
use hyle.Prelude.{
  ℕ, String, List, [], ◌∷◌, Bool, Option, none, some, Result, ok, err, ltb, nat_eq, if◌then◌else◌,
  is_some, true, false, ◌||◌, ◌/◌,
}
use hyle.Prelude.Key.{string_key, pair_key, ◌==◌}
use hyle.Prelude.Texts.{str_le}
use hyle.Prelude.Map.{Map, lookup, insert, contains_key}
use hyle.Model.{ContractName}
use hyle.Sdk.{BlobFormat, ExecutionContext, SdkError}
use hyle.Sdk.Callees.{check_calls}
use hyle.Contracts.Hyllar.{HyllarAction, transfer_between, transfer_to}
use hyle.Prelude.Word.{add_u128, sub_u128, mul_u128}

-- The smaller token first.
abbrev pub UnorderedTokenPair : Type 0
UnorderedTokenPair = String × String

abbrev pub TokenPairAmount : Type 0
TokenPairAmount = ℕ × ℕ

-- `UnorderedTokenPair::new`
unfoldable pub unordered : String → String → UnorderedTokenPair
unordered x y = if str_le x y then (x, y) else (y, x)

pub record Amm : Type 0 where
  pub pairs : Map UnorderedTokenPair TokenPairAmount

pub data AmmError : Type 0 where
  same_tokens pair_exists pair_not_found invalid_swap panicked : AmmError

pub data AmmOutput : Type 0 where
  pair_created : UnorderedTokenPair → AmmOutput
  swap_valid : ℕ → String → ℕ → String → AmmOutput

-- `y - x * y / (x + amount)`
unfoldable pub amount_out : ℕ → ℕ → ℕ → Result AmmError ℕ
amount_out x y amount =
    if nat_eq (add_u128 x amount) 0
    then err panicked
    else ok (sub_u128 y (mul_u128 x y / add_u128 x amount))

-- The outer option is the method's own.
unfoldable pub get_paired_amount : Amm → String → String → ℕ → Option (Result AmmError ℕ)
get_paired_amount amm token_a token_b amount_a =
    elim (lookup (unordered token_a token_b) amm.pairs) [
      | none ↦ none
      | some (x, y) ↦ some (amount_out x y amount_a)
    ]

unfoldable pub create_new_pair :
    Amm → String × String → TokenPairAmount → Result AmmError AmmOutput × Amm
create_new_pair amm (a, b) amounts =
    if a == b
    then (err same_tokens, amm)
    else if contains_key (unordered a b) amm.pairs
    then (err pair_exists, amm)
    else (
      ok (pair_created (unordered a b)),
      record { pairs = insert (unordered a b) amounts amm.pairs },
    )

-- The reserves after a swap, and the amount that the formula gives.
unfoldable pub swap_reserves : Bool → TokenPairAmount → ℕ → Result AmmError (ℕ × TokenPairAmount)
swap_reserves true (x, y) from_amount = elim (amount_out x y from_amount) [
  | err e ↦ err e
  | ok amount ↦ ok (amount, (add_u128 x from_amount, sub_u128 y amount))
]
swap_reserves false (x, y) from_amount = elim (amount_out y x from_amount) [
  | err e ↦ err e
  | ok amount ↦ ok (amount, (sub_u128 x amount, add_u128 y from_amount))
]

-- `to_amount > expected || to_amount < expected * 98 / 100`
unfoldable pub out_of_range : ℕ → ℕ → Bool
out_of_range to_amount expected =
    ltb expected to_amount || ltb to_amount (mul_u128 expected 98 / 100)

unfoldable pub verify_swap : Amm → String × String → ℕ → ℕ → Result AmmError AmmOutput × Amm
verify_swap amm (a, b) from_amount to_amount =
    if a == b then (err same_tokens, amm) else elim (lookup (unordered a b) amm.pairs) [
      | none ↦ (err pair_not_found, amm)
      | some reserves ↦ elim (swap_reserves (str_le a b) reserves from_amount) [
        | err e ↦ (err e, amm)
        | ok (expected, reserves') ↦ (
          if out_of_range to_amount expected
              then err invalid_swap
              else ok (swap_valid from_amount a to_amount b),
          record { pairs = insert (unordered a b) reserves' amm.pairs },
        )
      ]
    ]

pub data AmmAction : Type 0 where
  swap : String × String → TokenPairAmount → AmmAction
  new_pair : String × String → TokenPairAmount → AmmAction

-- Why a run fails: the blobs of the transaction, or the action itself.
pub data ExecuteError : Type 0 where
  of_calls : SdkError → ExecuteError
  of_amm : AmmError → ExecuteError

-- The calls that an action needs, in the order in which they are checked.
unfoldable pub calls_of : AmmAction → ExecutionContext → List (ContractName × HyllarAction)
calls_of (swap (a, b) (from_amount, to_amount)) ctx =
    (a, transfer_between ctx.caller ctx.contract_name from_amount)
    ∷ (b, transfer_to ctx.caller to_amount)
    ∷ []
calls_of (new_pair (a, b) (amount_a, amount_b)) ctx =
    (a, transfer_between ctx.caller ctx.contract_name amount_a)
    ∷ (b, transfer_between ctx.caller ctx.contract_name amount_b)
    ∷ []

unfoldable pub run_action : Amm → AmmAction → Result AmmError AmmOutput × Amm
run_action amm (swap pair (from_amount, to_amount)) = verify_swap amm pair from_amount to_amount
run_action amm (new_pair pair amounts) = create_new_pair amm pair amounts

-- `execute`, after `parse_calldata`.
unfoldable pub execute :
    BlobFormat HyllarAction
    → Amm
    → AmmAction
    → ExecutionContext
    → Result ExecuteError (AmmOutput × ExecutionContext) × Amm
unfolding calls_of run_action
execute format amm action ctx = elim (check_calls format ctx (calls_of action ctx)) [
  | err e ↦ (err (of_calls e), amm)
  | ok ctx' ↦
      let (result, amm') = run_action amm action in
      (elim result [ ok out ↦ ok (out, ctx') | err e ↦ err (of_amm e) ], amm')
]
