-- ===== src/Contracts/Staking/FeeBalance.antt =====
-- Fees move between the balances. The sums are of the bits of the balances, modulo 2 ^ 128, where
-- adding and subtracting `i128`s is exact.
use native.Mathlib.Nat.{suc-mul, div-add-mod, mod-lt}
use hyle.Prelude.{
  ◌≡◌, refl, sym, ℕ, ◌+◌, ◌-◌, ◌*◌, ◌/◌, ◌%◌, ◌<◌, ◌≤◌, false, some, List, [], ◌∷◌, length, arith,
  Option-cases, Bool-cases, Result-cases, inl, inr, ltb, nat_eq,
}
use hyle.Prelude.Key.{◌==◌}
use hyle.Prelude.Word.{add_u128, sub_u128, u128_mod, u64_mod}
use hyle.Prelude.Map.{lookup, insert, place, replace, get_or}
use hyle.Model.{ValidatorPublicKey, bytes_key}
use hyle.Contracts.Staking.{
  ValidatorFeeState, FeeBalances, no_fees, Fees, give_each, pay_one, pay_all, distribute_fees,
}

unfoldable pub total_fees : FeeBalances → ℕ
total_fees [] = 0
total_fees ((v, state) ∷ m) = state.balance + total_fees m

fees-place :
    (v : ValidatorPublicKey) (state : ValidatorFeeState) (m : FeeBalances)
    → total_fees (place v state m) ≡ state.balance + total_fees m
unfolding total_fees place
fees-place v state [] = refl
fees-place v state ((w, s) ∷ m) = ground (arith, fees-place v state m)

fees-replace :
    (v : ValidatorPublicKey) (state old : ValidatorFeeState) (m : FeeBalances)
    → lookup v m ≡ some old
    → total_fees (replace v state m) + old.balance ≡ total_fees m + state.balance
unfolding total_fees replace lookup
fees-replace v state old [] e = absurd (ground arith)
fees-replace v state old ((w, s) ∷ m) e = elim (Bool-cases (w == v)) [
  | inl k ↦ let same : s ≡ old = ground arith in rw (k, replace, sym same) (omega arith)
  | inr k ↦ rw (k, replace) (omega (arith, fees-replace v state old m (ground arith)))
]

fees-insert :
    (v : ValidatorPublicKey) (state : ValidatorFeeState) (m : FeeBalances)
    → total_fees (insert v state m) + (get_or v m no_fees).balance ≡ total_fees m + state.balance
unfolding insert
fees-insert v state m = elim (Option-cases (lookup v m)) [
  | inl e ↦ rw (e, insert) (omega (arith, fees-place v state m))
  | inr (old, e) ↦ rw (e, insert) (fees-replace v state old m e)
]

fees-give :
    (vs : List ValidatorPublicKey) (share : ℕ) (m : FeeBalances)
    → total_fees (give_each vs share m) % u128_mod ≡ (total_fees m + length vs * share) % u128_mod
unfolding give_each
fees-give [] share m = omega arith
fees-give (v ∷ vs) share m =
    let old : ValidatorFeeState = get_or v m no_fees in
    let paid : ValidatorFeeState = record old { balance = add_u128 old.balance share } in
    omega
      (arith, fees-give vs share (insert v paid m), fees-insert v paid m, suc-mul (length vs) share)

-- What is lost where a fee is shared out.
abbrev pub Dust : ℕ → ℕ → FeeBalances → FeeBalances → Type 0
Dust fee validators m m' = (total_fees m' + fee % validators) % u128_mod ≡ total_fees m % u128_mod

fee_shared :
    (bonded : List ValidatorPublicKey) (m : FeeBalances) (d : ValidatorPublicKey)
    (state : ValidatorFeeState) (fee cumul : ℕ)
    → lookup d m ≡ some state
    → fee < u64_mod
    → Dust fee (length bonded) m (
        give_each bonded
          (fee / length bonded)
          (insert d (record { balance = sub_u128 state.balance fee; paid_cumul_size = cumul }) m))
fee_shared bonded m d state fee cumul e small =
    let charged : ValidatorFeeState = record {
      balance = sub_u128 state.balance fee;
      paid_cumul_size = cumul;
    } in
    let known : (get_or d m no_fees).balance ≡ state.balance = ground arith in
    omega (
      arith,
      known,
      fees-insert d charged m,
      fees-give bonded (fee / length bonded) (insert d charged m),
      div-add-mod fee (length bonded),
    )

-- The sum of the balances falls by at most this much.
abbrev pub LosesAtMost : ℕ → FeeBalances → FeeBalances → Type 0
LosesAtMost bound m m' =
    (lost : ℕ) × (lost ≤ bound) × ((total_fees m' + lost) % u128_mod ≡ total_fees m % u128_mod)

abbrev pub AllFit : List (ValidatorPublicKey × ℕ) → Type 0
AllFit [] = Unit {0}
AllFit ((d, size) ∷ more) = (size < u64_mod) × AllFit more

module _ (bonded : List ValidatorPublicKey) (some_bonded : 0 < length bonded) where
  pay_one-LosesAtMost :
      (m : FeeBalances) (d : ValidatorPublicKey) (size : ℕ)
      → size < u64_mod
      → LosesAtMost (length bonded) m (pay_one bonded m (d, size)).1
  unfolding pay_one
  pay_one-LosesAtMost m d size fits = elim (Option-cases (lookup d m)) [
    | inl e ↦ rw (e, pay_one) (0, omega arith, omega arith)
    | inr (state, e) ↦ elim (Bool-cases (ltb size state.paid_cumul_size)) [
      | inl l ↦ rw (e, l, pay_one) (0, omega arith, omega arith)
      | inr l ↦
          let fee : ℕ = size - state.paid_cumul_size in
          let not_empty : nat_eq (length bonded) 0 ≡ false = ground arith in
          rw (e, l, not_empty, pay_one)
            (
              fee % length bonded,
              omega (arith, mod-lt fee some_bonded),
              fee_shared bonded m d state fee size e (omega arith),
            )
    ]
  ]

  pay_all-LosesAtMost :
      (m : FeeBalances) (pending : List (ValidatorPublicKey × ℕ))
      → AllFit pending
      → LosesAtMost (length pending * length bonded) m (pay_all bonded m pending).1
  unfolding pay_all
  pay_all-LosesAtMost m [] fits = (0, omega arith, omega arith)
  pay_all-LosesAtMost m ((d, size) ∷ more) fits =
      let (lost, few, same) = pay_one-LosesAtMost m d size fits.0 in
      elim (Result-cases (pay_one bonded m (d, size)).0) [
        | inr (x, e) ↦
            rw (e, pay_all) (lost, omega (arith, suc-mul (length more) (length bonded)), same)
        | inl (done, e) ↦
            let (lost', few', same') =
              pay_all-LosesAtMost (pay_one bonded m (d, size)).1 more fits.1 in
            rw (e, pay_all)
              (lost + lost', omega (arith, suc-mul (length more) (length bonded)), omega arith)
      ]

  -- Where a validator is bonded and the sizes are below 2 ^ 64, a distribution of fees, whether it
  -- ends early or not, lowers the sum of the balances by no more than the rounding, at most the
  -- number of bonded validators for each fee, and leaves no fee pending.
  pub distribution-LosesAtMost :
      (fees : Fees)
      → AllFit fees.pending_fees
      → LosesAtMost
          (length fees.pending_fees * length bonded)
          fees.balances
          (distribute_fees fees bonded).1.balances
        × ((distribute_fees fees bonded).1.pending_fees ≡ [])
  unfolding distribute_fees
  distribution-LosesAtMost fees fits =
      (pay_all-LosesAtMost fees.balances fees.pending_fees fits, refl)
