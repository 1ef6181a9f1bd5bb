-- ===== src/Contracts/Staking/FeeState.antt =====
-- The fees of the validators: crates/contracts/staking/src/fees.rs. An `i128` is kept as its bits, a
-- number below 2 ^ 128, on which it adds and subtracts as a `u128` does.
use hyle.Prelude.{
  ℕ, ◌-◌, ◌/◌, none, some, List, [], ◌∷◌, ◌++◌, if◌then◌else◌, length, ltb, nat_eq, Result, ok, err,
}
use hyle.Prelude.Key.{string_key}
use hyle.Prelude.Word.{add_u128, sub_u128}
use hyle.Prelude.Map.{Map, lookup, insert, get_or}
use hyle.Model.{ValidatorPublicKey, bytes_key}

pub record ValidatorFeeState : Type 0 where
  pub balance : ℕ
  pub paid_cumul_size : ℕ

-- `ValidatorFeeState::default()`
abbrev pub no_fees : ValidatorFeeState
no_fees = record { balance = 0; paid_cumul_size = 0 }

abbrev pub FeeBalances : Type 0
FeeBalances = Map ValidatorPublicKey ValidatorFeeState

pub record Fees : Type 0 where
  pub pending_fees : List (ValidatorPublicKey × ℕ)
  pub balances : FeeBalances

pub data StakingError : Type 0 where
  already_staked already_delegated already_bonded not_enough_stake : StakingError
  disseminator_not_found cumul_size_decreased panicked : StakingError

unfoldable pub deposit : Fees → ValidatorPublicKey → ℕ → Fees
deposit fees holder amount =
    let state = get_or holder fees.balances no_fees in
    record fees {
      balances =
          insert holder (record state { balance = add_u128 state.balance amount }) fees.balances;
    }

unfoldable pub pay_for_dadi : Fees → ValidatorPublicKey → ℕ → Fees
pay_for_dadi fees disseminator cumul_size = record fees {
  pending_fees = fees.pending_fees ++ (disseminator, cumul_size) ∷ [];
}

unfoldable pub give_each : List ValidatorPublicKey → ℕ → FeeBalances → FeeBalances
give_each [] share balances = balances
give_each (v ∷ vs) share balances =
    let state = get_or v balances no_fees in
    give_each vs share (insert v (record state { balance = add_u128 state.balance share }) balances)

-- One pending fee; a fee per byte is 1.
unfoldable pub pay_one :
    List ValidatorPublicKey
    → FeeBalances
    → ValidatorPublicKey × ℕ
    → Result StakingError (Unit {0}) × FeeBalances
unfolding give_each
pay_one bonded balances (disseminator, cumul_size) = elim (lookup disseminator balances) [
  | none ↦ (err disseminator_not_found, balances)
  | some state ↦
      if ltb cumul_size state.paid_cumul_size
      then (err cumul_size_decreased, balances)
      else (let fee = cumul_size - state.paid_cumul_size in
          let charged =
            insert disseminator
              (record { balance = sub_u128 state.balance fee; paid_cumul_size = cumul_size })
              balances in
          if nat_eq (length bonded) 0
          then (err panicked, charged)
          else (ok tt, give_each bonded (fee / length bonded) charged))
]

unfoldable pub pay_all :
    List ValidatorPublicKey
    → FeeBalances
    → List (ValidatorPublicKey × ℕ)
    → Result StakingError (Unit {0}) × FeeBalances
unfolding pay_one
pay_all bonded balances [] = (ok tt, balances)
pay_all bonded balances (pending ∷ more) =
    let (result, balances') = pay_one bonded balances pending in
    elim result [ err e ↦ (err e, balances') | ok done ↦ pay_all bonded balances' more ]

-- `drain` empties the pending fees, also where the loop returns early.
unfoldable pub distribute_fees :
    Fees → List ValidatorPublicKey → Result StakingError (Unit {0}) × Fees
unfolding pay_all
distribute_fees fees bonded =
    let (result, balances) = pay_all bonded fees.balances fees.pending_fees in
    (result, record { pending_fees = []; balances = balances })

pub data TransferError : Type 0 where
  no_transfer_blob wrong_recipient wrong_token wrong_amount not_a_transfer : TransferError
