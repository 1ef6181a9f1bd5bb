-- ===== src/Contracts/Tests.antt =====
-- The contracts at concrete inputs.
use hyle.Prelude.{
  nat_eq, length, none, if◌then◌else◌, ◌≡◌, refl, ok, err, String, false, some, [], ◌∷◌, ◌+◌, ◌≤◌,
  ◌<◌, ◌*◌, arith, ◌&&◌,
}
use hyle.Prelude.Key.{string_key, pair_key, ◌==◌}
use hyle.Prelude.Map.{total, lookup, insert}
use hyle.Sdk.{BlobFormat, Calldata, ExecutionContext}
use hyle.Contracts.Hyllar.{
  HyllarAction, hyllar_action_eq, Hyllar, transfer_from, transfer, allowance, balance_of, credit,
  debit, execute_token_action, transfer_to, transfer_between, transferred, transferred_from,
  account_not_found, custom, total_supply_amount,
}
use hyle.Contracts.Hyllar.Ledger.{IsFunded, funds}
use hyle.Contracts.Hyllar.Transfer.{Moves, transfer_from-Moves}
use hyle.Contracts.Hyllar.Reachable.{
  deployed, acts, Permitted, execute-Permitted, execute_error_unchanged, supply_conserved,
}
use hyle.Contracts.Amm.{
  Amm, verify_swap, get_paired_amount, unordered, swap_reserves, amount_out, out_of_range,
  swap_valid, invalid_swap,
}
use hyle.Contracts.Amm.Reserves.{reserves, Fits, swap_exact}
use hyle.Contracts.Amm.Quotes.{quote_is_accepted, quote_ignores_order}

abbrev token_state : Hyllar
token_state = record {
  total_supply = 100;
  balances = ("alice", 70) ∷ ("bob", 30) ∷ [];
  allowances = (("alice", "bob"), 50) ∷ [];
}

token_state-IsFunded : IsFunded token_state
unfolding total
token_state-IsFunded = (refl, omega arith)

-- Bob moves 20 of Alice's tokens to Carol.
abbrev token_state_after : Hyllar
token_state_after = record {
  total_supply = 100;
  balances = ("alice", 50) ∷ ("bob", 30) ∷ ("carol", 20) ∷ [];
  allowances = (("alice", "bob"), 30) ∷ [];
}

bob_spends : transfer_from token_state "alice" "bob" "carol" 20 ≡ (ok tt, token_state_after)
unfolding transfer_from balance_of allowance credit debit lookup insert
bob_spends = refl

transfer_from-Moves_example :
    (20 ≤ funds token_state "alice")
    × (20 ≤ allowance token_state "alice" "bob")
    × Moves token_state token_state_after "alice" "carol" 20
    × IsFunded token_state_after
    × (token_state_after.total_supply ≡ 100)
    × ((o s : String)
        → allowance token_state_after o s + (if "alice" == o && "bob" == s then 20 else 0)
          ≡ allowance token_state o s)
transfer_from-Moves_example =
    transfer_from-Moves token_state token_state_after token_state-IsFunded "alice" "bob" "carol" 20
      bob_spends

bob_executes :
    execute_token_action token_state (transfer_between "alice" "carol" 20) "bob"
    ≡ (ok (transferred_from 20 "alice" "carol"), token_state_after)
unfolding execute_token_action transfer_from balance_of allowance credit debit lookup insert
bob_executes = refl

execute-Permitted_example : Permitted token_state token_state_after "bob"
execute-Permitted_example =
    execute-Permitted token_state token_state_after "bob" token_state-IsFunded
      (transfer_between "alice" "carol" 20) (transferred_from 20 "alice" "carol") bob_executes

dave_fails :
    execute_token_action token_state (transfer_to "bob" 1) "dave"
    ≡ (err account_not_found, token_state)
unfolding execute_token_action transfer balance_of lookup
dave_fails = refl

execute_error_unchanged_example : token_state ≡ token_state
execute_error_unchanged_example =
    execute_error_unchanged token_state token_state "dave" (transfer_to "bob" 1) account_not_found
      dave_fails

-- The faucet of a new token pays Alice.
abbrev after_faucet : Hyllar
after_faucet = record {
  total_supply = total_supply_amount;
  balances = ("alice", 5) ∷ ("faucet", 99999999999995) ∷ [];
  allowances = [];
}

faucet_pays :
    execute_token_action (custom "faucet") (transfer_to "alice" 5) "faucet"
    ≡ (ok (transferred 5 "alice"), after_faucet)
unfolding execute_token_action custom transfer balance_of credit debit lookup insert
faucet_pays = refl

supply_conserved_example : total after_faucet.balances ≡ total_supply_amount
supply_conserved_example = supply_conserved "faucet" after_faucet (
    acts (custom "faucet") after_faucet (transfer_to "alice" 5) "faucet" (transferred 5 "alice")
      deployed faucet_pays)

abbrev market : Amm
market = record { pairs = (("token1", "token2"), (20, 50)) ∷ [] }

-- One token1 is worth three token2 here, since the rest of 1000 / 21 is rounded down.
abbrev market_after : Amm
market_after = record { pairs = (("token1", "token2"), (21, 47)) ∷ [] }

swap_runs :
    verify_swap market ("token1", "token2") 1 3
    ≡ (ok (swap_valid 1 "token1" 3 "token2"), market_after)
unfolding verify_swap unordered swap_reserves amount_out out_of_range lookup insert
swap_runs = refl

market-reserves : reserves market "token1" "token2" ≡ some (20, 50)
unfolding reserves unordered lookup
market-reserves = refl

market-Fits : Fits 20 50 1
market-Fits = (omega arith, omega arith, omega arith, omega arith)

swap_exact_example :
    (reserves market_after "token1" "token2" ≡ some (21, 47))
    × (21 * 47 ≤ 20 * 50)
    × (20 * 50 < 21 * 47 + 21)
    × (3 ≤ 3)
    × (98 * 3 ≤ 100 * 3 + 99)
    × ((p : String × String)
        → pair_key.beq (unordered "token1" "token2") p ≡ false
        → lookup p market_after.pairs ≡ lookup p market.pairs)
swap_exact_example =
    swap_exact 20 50 1 market-Fits market market_after "token1" "token2" 3
      (swap_valid 1 "token1" 3 "token2") market-reserves swap_runs

quote_runs : get_paired_amount market "token1" "token2" 5 ≡ some (ok 10)
unfolding get_paired_amount unordered amount_out lookup
quote_runs = refl

quote_is_accepted_example :
    (verify_swap market ("token1", "token2") 5 10).0 ≡ ok (swap_valid 5 "token1" 10 "token2")
quote_is_accepted_example = quote_is_accepted market "token1" "token2" 5 10 refl refl quote_runs

-- A swap of 50 token2 gives 10 token1, and the quote says 36.
swap_back :
    verify_swap market ("token2", "token1") 50 36
    ≡ (err invalid_swap, record { pairs = (("token1", "token2"), (10, 100)) ∷ [] })
unfolding verify_swap unordered swap_reserves amount_out out_of_range lookup insert
swap_back = refl

quote_back : get_paired_amount market "token2" "token1" 50 ≡ some (ok 36)
unfolding get_paired_amount unordered amount_out lookup
quote_back = refl

quote_ignores_order_example :
    get_paired_amount market "token2" "token1" 50 ≡ get_paired_amount market "token1" "token2" 50
quote_ignores_order_example = quote_ignores_order market "token2" "token1" 50

abbrev empty_calldata : Calldata
empty_calldata = record {
  tx_hash = "tx";
  identity = "bob";
  blobs = [];
  tx_blob_count = 0;
  index = 0;
  tx_ctx = none;
}

-- A format in which a blob's first byte says which of the two transfers of the swap it is.
abbrev hyllar_format : BlobFormat HyllarAction
hyllar_format = record {
  structured = λ bytes. none;
  parse = λ bytes. some (
    record { caller = some 0; callees = none },
    if nat_eq (length bytes) 1 then transfer_between "bob" "amm" 1 else transfer_to "bob" 3,
  );
  same = hyllar_action_eq;
}

abbrev swap_context : ExecutionContext
swap_context = record {
  callees_blobs =
      record { contract_name = "token1"; blob_data = 1 ∷ [] }
      ∷ record { contract_name = "token2"; blob_data = 1 ∷ 2 ∷ [] }
      ∷ [];
  caller = "bob";
  contract_name = "amm";
}

abbrev swap_context_after : ExecutionContext
swap_context_after = record swap_context { callees_blobs = [] }
