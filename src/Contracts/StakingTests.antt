-- ===== src/Contracts/StakingTests.antt =====
-- Staking at concrete inputs.
use hyle.Prelude.{◌≡◌, refl, ok, [], ◌∷◌, arith}
use hyle.Prelude.Key.{string_key}
use hyle.Prelude.Map.{lookup, insert}
use hyle.Prelude.Sets.{count}
use hyle.Model.{ValidatorPublicKey, bytes_key}
use hyle.Contracts.Staking.{
  Fees, Staking, delegate_to, distribute_fees, give_each, pay_all, pay_one,
}
use hyle.Contracts.Staking.Delegations.{DelegatesOnce, delegate_to-DelegatesOnce}
use hyle.Contracts.Staking.FeeBalance.{LosesAtMost, distribution-LosesAtMost}

abbrev first_validator : ValidatorPublicKey
first_validator = 1 ∷ []

abbrev second_validator : ValidatorPublicKey
second_validator = 2 ∷ []

abbrev test_fees : Fees
test_fees = record {
  pending_fees = (first_validator, 101) ∷ [];
  balances = (first_validator, record { balance = 200; paid_cumul_size = 0 }) ∷ [];
}

-- Alice's validator is bonded; Bob has a stake and delegates to no one.
abbrev staking : Staking
staking = record {
  stakes = ("alice", 40) ∷ ("bob", 5) ∷ [];
  delegations = (first_validator, "alice" ∷ []) ∷ [];
  bonded = first_validator ∷ [];
  total_bond = 40;
  fees = test_fees;
}

abbrev staking_after : Staking
staking_after = record staking { delegations = (first_validator, "alice" ∷ "bob" ∷ []) ∷ [] }

staking-DelegatesOnce : DelegatesOnce staking
unfolding count
staking-DelegatesOnce d = ground arith

delegate_to-DelegatesOnce_example : DelegatesOnce (delegate_to staking "bob" first_validator).1
delegate_to-DelegatesOnce_example =
    delegate_to-DelegatesOnce staking "bob" first_validator staking-DelegatesOnce

-- A fee of 101 for two validators: each gets 50, and 1 is lost.
two_share : distribute_fees test_fees (first_validator ∷ second_validator ∷ []) ≡ (
  ok tt,
  record {
    pending_fees = [];
    balances =
        (first_validator, record { balance = 149; paid_cumul_size = 101 })
        ∷ (second_validator, record { balance = 50; paid_cumul_size = 0 })
        ∷ [];
  },
)
unfolding distribute_fees pay_all pay_one give_each lookup insert
two_share = refl

distribution-LosesAtMost_example :
    LosesAtMost 2 test_fees.balances
      (distribute_fees test_fees (first_validator ∷ second_validator ∷ [])).1.balances
    × ((distribute_fees test_fees (first_validator ∷ second_validator ∷ [])).1.pending_fees ≡ [])
distribution-LosesAtMost_example =
    distribution-LosesAtMost (first_validator ∷ second_validator ∷ []) (omega arith) test_fees
      (omega arith, tt)
