-- ===== src/Contracts/Staking.antt =====
-- Stakes, delegations and bonded validators: crates/contracts/staking/src/state.rs and lib.rs. A
-- method that takes `&mut self` returns its result and the state that it leaves.
pub mod FeeState
pub mod Members
pub mod Power
pub mod Delegations
pub mod FeeBalance
unfoldable pub use FeeState.*
use hyle.Prelude.{
  ◌≡◌, not, ℕ, ◌+◌, ◌-◌, ◌/◌, Bool, true, false, Option, none, some, List, [], ◌∷◌, ◌++◌,
  if◌then◌else◌, any, length, ltb, nat_eq, unwrap_or, map, Result, ok, err,
}
use hyle.Prelude.Key.{◌==◌, string_key}
use hyle.Prelude.Word.{add_u128, sub_u128}
use hyle.Prelude.Map.{Map, lookup, insert, get_or, contains_key, values}
use hyle.Prelude.Sets.{mem, place_member}
use hyle.Sdk.{BlobFormat, parse_structured_blob}
use hyle.Contracts.Hyllar.{HyllarAction, transfer_to}
use hyle.Model.{
  BlobIndex, IndexedBlobs, Identity, StakingAction, stake, delegate, distribute, deposit_for_fees,
  ValidatorPublicKey, bytes_key,
}

pub record Staking : Type 0 where
  pub stakes : Map Identity ℕ
  pub delegations : Map ValidatorPublicKey (List Identity)
  pub bonded : List ValidatorPublicKey
  pub total_bond : ℕ
  pub fees : Fees

-- `MIN_STAKE`
abbrev pub min_stake : ℕ
min_stake = 32

-- `Staking::new`
abbrev pub new_staking : Staking
new_staking = record {
  stakes = [];
  delegations = [];
  bonded = [];
  total_bond = 0;
  fees = record { pending_fees = []; balances = [] };
}

-- `Iterator::sum`
unfoldable pub sum_u128 : List ℕ → ℕ
sum_u128 [] = 0
sum_u128 (n ∷ ns) = add_u128 n (sum_u128 ns)

unfoldable pub get_stake : Staking → ValidatorPublicKey → Option ℕ
unfolding sum_u128
get_stake s validator = elim (lookup validator s.delegations) [
  | none ↦ none
  | some delegators ↦ some (sum_u128 (map (λ d. get_or d s.stakes 0) delegators))
]

-- `sort`
unfoldable pub sort : List ValidatorPublicKey → List ValidatorPublicKey
unfolding place_member
sort [] = []
sort (v ∷ vs) = place_member v (sort vs)

unfoldable pub push_new : ValidatorPublicKey → List ValidatorPublicKey → List ValidatorPublicKey
push_new v [] = v ∷ []
push_new v (w ∷ ws) = if v == w then w ∷ ws else v ∷ w ∷ ws

-- `dedup`
unfoldable pub dedup : List ValidatorPublicKey → List ValidatorPublicKey
unfolding push_new
dedup [] = []
dedup (v ∷ vs) = push_new v (dedup vs)

unfoldable pub stakes_of : Staking → List ValidatorPublicKey → List ℕ
unfolding get_stake
stakes_of s [] = []
stakes_of s (v ∷ vs) =
    let rest = stakes_of s vs in elim (get_stake s v) [ some n ↦ n ∷ rest | none ↦ rest ]

unfoldable pub compute_voting_power : Staking → List ValidatorPublicKey → ℕ
unfolding stakes_of sort dedup
compute_voting_power s validators = sum_u128 (stakes_of s (dedup (sort validators)))

unfoldable pub compute_f : Staking → ℕ
compute_f s = s.total_bond / 3

unfoldable pub is_known : Staking → ValidatorPublicKey → Bool
is_known s key = any (λ (v, ds). v == key) s.delegations

unfoldable pub is_bonded : Staking → ValidatorPublicKey → Bool
is_bonded s pubkey = any (λ v. v == pubkey) s.bonded

unfoldable pub bond : Staking → ValidatorPublicKey → Result StakingError (Unit {0}) × Staking
unfolding sort is_bonded
bond s validator =
    if is_bonded s validator then (err already_bonded, s) else elim (get_stake s validator) [
      | none ↦ (err not_enough_stake, s)
      | some staked ↦ if ltb staked min_stake then (err not_enough_stake, s) else (
        ok tt,
        record s {
          bonded = sort (s.bonded ++ validator ∷ []);
          total_bond = add_u128 s.total_bond staked;
        },
      )
    ]

unfoldable pub stake_amount : Staking → Identity → ℕ → Result StakingError (Unit {0}) × Staking
stake_amount s staker amount =
    if contains_key staker s.stakes
    then (err already_staked, s)
    else (ok tt, record s { stakes = insert staker amount s.stakes })

-- `delegations.values().flatten()`
abbrev pub delegators : Map ValidatorPublicKey (List Identity) → List Identity
delegators [] = []
delegators ((v, ds) ∷ m) = ds ++ delegators m

unfoldable pub delegate_to :
    Staking → Identity → ValidatorPublicKey → Result StakingError (Unit {0}) × Staking
delegate_to s staker validator =
    if any (λ d. d == staker) (delegators s.delegations) then (err already_delegated, s) else (
      ok tt,
      record s {
        delegations =
            insert validator (get_or validator s.delegations [] ++ staker ∷ []) s.delegations;
      },
    )

-- The blob after the contract's own is a transfer of the amount to "staking".
unfoldable pub check_transfer_blob :
    BlobFormat HyllarAction → IndexedBlobs → BlobIndex → ℕ → Result TransferError (Unit {0})
check_transfer_blob format blobs index amount = elim (parse_structured_blob format blobs index) [
  | none ↦ err no_transfer_blob
  | some (name, s, transfer_to recipient transfer_amount) ↦
      if not (recipient == "staking")
      then err wrong_recipient
      else if not (name == "hyllar")
      then err wrong_token
      else if not (nat_eq amount transfer_amount)
      then err wrong_amount
      else ok tt
  | some (name, s, _) ↦ err not_a_transfer
]

pub data ExecuteError : Type 0 where
  of_transfer : TransferError → ExecuteError
  of_staking : StakingError → ExecuteError

abbrev of_result :
    Result StakingError (Unit {0}) × Staking → Result ExecuteError (Unit {0}) × Staking
of_result (ok done, s) = (ok done, s)
of_result (err e, s) = (err (of_staking e), s)

-- `execute`, after `parse_calldata`; `Distribute` is a `todo!()`.
unfoldable pub execute :
    BlobFormat HyllarAction
    → Staking
    → IndexedBlobs
    → BlobIndex
    → Identity
    → StakingAction
    → Result ExecuteError (Unit {0}) × Staking
unfolding check_transfer_blob
execute format s blobs index caller (stake amount) =
    elim (check_transfer_blob format blobs (index + 1) amount) [
      | err e ↦ (err (of_transfer e), s)
      | ok done ↦ of_result (stake_amount s caller amount)
    ]
execute format s blobs index caller (delegate validator) =
    of_result (delegate_to s caller validator)
execute format s blobs index caller (distribute claim) = (err (of_staking panicked), s)
execute format s blobs index caller (deposit_for_fees holder amount) =
    elim (check_transfer_blob format blobs (index + 1) amount) [
      | err e ↦ (err (of_transfer e), s)
      | ok done ↦ (ok tt, record s { fees = deposit s.fees holder amount })
    ]

unfoldable pub process_action :
    Staking → Identity × StakingAction → Result StakingError (Unit {0}) × Staking
process_action s (identity, stake amount) = stake_amount s identity amount
process_action s (identity, delegate validator) = delegate_to s identity validator
process_action s (identity, distribute claim) = (err panicked, s)
process_action s (identity, deposit_for_fees holder amount) =
    (ok tt, record s { fees = deposit s.fees holder amount })

-- `?` ends the loop, and what the actions before it did stays.
unfoldable pub process_actions :
    Staking → List (Identity × StakingAction) → Result StakingError (Unit {0}) × Staking
unfolding process_action
process_actions s [] = (ok tt, s)
process_actions s (action ∷ more) =
    let (result, s') = process_action s action in
    elim result [ err e ↦ (err e, s') | ok done ↦ process_actions s' more ]

unfoldable pub bond_all :
    Staking → List ValidatorPublicKey → Result StakingError (Unit {0}) × Staking
unfolding bond
bond_all s [] = (ok tt, s)
bond_all s (validator ∷ more) =
    let (result, s') = bond s validator in
    elim result [ err e ↦ (err e, s') | ok done ↦ bond_all s' more ]

-- `process_block`, of the block's `staking_actions` and `new_bounded_validators`.
unfoldable pub process_block :
    Staking
    → List (Identity × StakingAction)
    → List ValidatorPublicKey
    → Result StakingError (Unit {0}) × Staking
unfolding process_actions bond_all
process_block s actions validators =
    let (result, s') = process_actions s actions in
    elim result [ err e ↦ (err e, s') | ok done ↦ bond_all s' validators ]
