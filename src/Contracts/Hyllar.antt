-- ===== src/Contracts/Hyllar.antt =====
-- The ERC-20 token of crates/contracts/hyllar (src/lib.rs and src/erc20.rs). A method that takes
-- `&mut self` returns its result and the state that it leaves; errors and outputs are the texts that
-- they print, as constructors with the values.
pub mod Ledger
pub mod Transfer
pub mod Reachable
use hyle.Prelude.{
  Bool, true, false, ◌&&◌, nat_eq, ℕ, String, Result, ok, err, ltb, if◌then◌else◌, ◌-◌, [], ◌∷◌,
  some, none,
}
use hyle.Prelude.Key.{◌==◌, string_key, pair_key}
use hyle.Prelude.Word.{add_u128, sub_u128}
use hyle.Prelude.Map.{Map, lookup, get_or, insert}

abbrev pub total_supply_amount : ℕ
total_supply_amount = 100000000000000

abbrev pub faucet_id : String
faucet_id = "faucet@hydentity"

pub record Hyllar : Type 0 where
  pub total_supply : ℕ
  pub balances : Map String ℕ
  pub allowances : Map (String × String) ℕ

pub data HyllarAction : Type 0 where
  total_supply_of : HyllarAction
  balance_of_account : String → HyllarAction
  transfer_to : String → ℕ → HyllarAction
  transfer_between : String → String → ℕ → HyllarAction
  approve_spender : String → ℕ → HyllarAction
  allowance_of : String → String → HyllarAction

-- The derived `PartialEq`.
abbrev pub hyllar_action_eq : HyllarAction → HyllarAction → Bool
hyllar_action_eq total_supply_of total_supply_of = true
hyllar_action_eq (balance_of_account a) (balance_of_account b) = a == b
hyllar_action_eq (transfer_to r n) (transfer_to s k) = r == s && nat_eq n k
hyllar_action_eq (transfer_between o r n) (transfer_between p s k) =
    o == p && (r == s && nat_eq n k)
hyllar_action_eq (approve_spender a n) (approve_spender b k) = a == b && nat_eq n k
hyllar_action_eq (allowance_of o a) (allowance_of p b) = o == p && a == b
hyllar_action_eq _ _ = false

pub data HyllarError : Type 0 where
  account_not_found insufficient_balance allowance_exceeded : HyllarError

pub data HyllarOutput : Type 0 where
  supply_is : ℕ → HyllarOutput
  balance_is : String → ℕ → HyllarOutput
  transferred : ℕ → String → HyllarOutput
  transferred_from : ℕ → String → String → HyllarOutput
  approved : ℕ → String → HyllarOutput
  allowance_is : String → String → ℕ → HyllarOutput

-- `Hyllar::custom`
unfoldable pub custom : String → Hyllar
custom faucet = record {
  total_supply = total_supply_amount;
  balances = (faucet, total_supply_amount) ∷ [];
  allowances = [];
}

unfoldable pub balance_of : Hyllar → String → Result HyllarError ℕ
balance_of h account = elim (lookup account h.balances) [
  | some balance ↦ ok balance
  | none ↦ err account_not_found
]

unfoldable pub allowance : Hyllar → String → String → ℕ
allowance h owner spender = get_or (owner, spender) h.allowances 0

-- `*balances.entry(account).or_insert(0) -= amount`, and `+=`
unfoldable pub debit : String → ℕ → Map String ℕ → Map String ℕ
debit account amount balances =
    insert account (sub_u128 (get_or account balances 0) amount) balances

unfoldable pub credit : String → ℕ → Map String ℕ → Map String ℕ
credit account amount balances =
    insert account (add_u128 (get_or account balances 0) amount) balances

unfoldable pub transfer : Hyllar → String → String → ℕ → Result HyllarError (Unit {0}) × Hyllar
transfer h sender recipient amount = elim (balance_of h sender) [
  | err e ↦ (err e, h)
  | ok sender_balance ↦
      if ltb sender_balance amount
      then (err insufficient_balance, h)
      else (ok tt, record h { balances = credit recipient amount (debit sender amount h.balances) })
]

unfoldable pub transfer_from :
    Hyllar → String → String → String → ℕ → Result HyllarError (Unit {0}) × Hyllar
transfer_from h owner spender recipient amount = elim (balance_of h owner) [
  | err e ↦ (err e, h)
  | ok sender_balance ↦
      if ltb (allowance h owner spender) amount
      then (err allowance_exceeded, h)
      else if ltb sender_balance amount
      then (err insufficient_balance, h)
      else (
        ok tt,
        record h {
          balances = credit recipient amount (debit owner amount h.balances);
          allowances = insert (owner, spender) (allowance h owner spender - amount) h.allowances;
        },
      )
]

unfoldable pub approve : Hyllar → String → String → ℕ → Hyllar
approve h owner spender amount = record h {
  allowances = insert (owner, spender) amount h.allowances;
}

-- `.map(|a| format!(…))`, with the state that is left.
abbrev pub outputs {ℓ} :
    {A : Type ℓ}
    → Result HyllarError A × Hyllar
    → (A → HyllarOutput)
    → Result HyllarError HyllarOutput × Hyllar
outputs (ok a, h) f = (ok (f a), h)
outputs (err e, h) f = (err e, h)

-- `execute_token_action`, for the caller of the execution context.
unfoldable pub execute_token_action :
    Hyllar → HyllarAction → String → Result HyllarError HyllarOutput × Hyllar
execute_token_action h total_supply_of caller = (ok (supply_is h.total_supply), h)
execute_token_action h (balance_of_account account) caller =
    outputs (balance_of h account, h) (balance_is account)
execute_token_action h (transfer_to recipient amount) caller =
    outputs (transfer h caller recipient amount) (λ _. transferred amount recipient)
execute_token_action h (transfer_between owner recipient amount) caller =
    outputs (transfer_from h owner caller recipient amount)
      (λ _. transferred_from amount owner recipient)
execute_token_action h (approve_spender spender amount) caller =
    (ok (approved amount spender), approve h caller spender amount)
execute_token_action h (allowance_of owner spender) caller =
    (ok (allowance_is spender owner (allowance h owner spender)), h)
