-- ===== src/Consensus/Round/Certificates.antt =====
-- Who leads a round, who takes part, and which certificates hold: methods of src/consensus.rs that
-- the roles share.
use hyle.Prelude.{
  not, ℕ, ◌+◌, ◌-◌, ◌%◌, Bool, true, false, Option, none, some, List, [], ◌∷◌, ◌++◌, if◌then◌else◌,
  all, length, map, get_elem?, ltb, nat_eq, Result, ok, err,
}
use hyle.Prelude.Exec.{Done, pure, lift, reading, ok_or, modify}
use hyle.Prelude.Key.{string_key}
use hyle.Prelude.Word.{u64_mod, add_u64, add_u128, mul_u128}
use hyle.Prelude.Map.{lookup}
use hyle.Model.{Bytes, ValidatorPublicKey, bytes_key}
use hyle.Contracts.Staking.{Staking, is_bonded, get_stake, compute_voting_power, compute_f}
use hyle.Proposals.{ConsensusProposalHash, AggregateSignature, SignedByValidator}
use hyle.Consensus.Messages.{SignedContent, Prepare}
use hyle.Consensus.{
  Env, Consensus, ConsensusError, no_next_leader, panicked, invalid_certificate, certificate_error,
  foreign_signers, not_enough_power, M, Output, StateTag, joining, leader_tag, BufferedPrepares,
}

-- `self.bus.send`
unfoldable pub send : Output → M Done
unfolding modify
send o = modify (λ s. record s { sent = s.sent ++ o ∷ [] })

abbrev pub set_tag : StateTag → M Done
set_tag tag = modify (λ s. record s { state_tag = tag })

abbrev pub is_joining : StateTag → Bool
is_joining joining = true
is_joining _ = false

abbrev pub is_leader : StateTag → Bool
is_leader leader_tag = true
is_leader _ = false

-- Round-robin on slot and view; `% 0` panics.
unfoldable pub leader_at : Staking → ℕ → ℕ → Result ConsensusError ValidatorPublicKey
leader_at staking slot view =
    if nat_eq (length staking.bonded) 0
    then err panicked
    else elim (get_elem? staking.bonded
        (((add_u64 slot view + (u64_mod - 1)) % u64_mod) % length staking.bonded)) [
          | none ↦ err no_next_leader
          | some v ↦ ok v
        ]

unfoldable pub round_leader : M ValidatorPublicKey
unfolding leader_at
round_leader = reading (λ s. lift (leader_at s.staking s.slot s.view))

-- The view goes up and down again.
unfoldable pub next_view_leader : M ValidatorPublicKey
unfolding leader_at
next_view_leader = reading (λ s. lift (leader_at s.staking s.slot (add_u64 s.view 1)))

unfoldable pub current_slot_prepare_is_present : Consensus → Bool
current_slot_prepare_is_present s = nat_eq s.current_proposal.slot s.slot

unfoldable pub is_part_of_consensus : Consensus → ValidatorPublicKey → Bool
unfolding is_bonded
is_part_of_consensus s pubkey = is_bonded s.staking pubkey

unfoldable pub get : BufferedPrepares → ConsensusProposalHash → Option Prepare
get buffer hash = lookup hash buffer.prepares

unfoldable pub next_prepare : BufferedPrepares → ConsensusProposalHash → Option Prepare
unfolding get
next_prepare buffer hash = elim (lookup hash buffer.children) [
  | none ↦ none
  | some child ↦ get buffer child
]

unfoldable pub verify_quorum_signers_part_of_consensus : Staking → AggregateSignature → Bool
unfolding is_bonded
verify_quorum_signers_part_of_consensus staking qc = all (λ v. is_bonded staking v) qc.validators

-- `2 * f + 1`
unfoldable pub quorum : Staking → ℕ
unfolding compute_f
quorum staking = add_u128 (mul_u128 2 (compute_f staking)) 1

abbrev pub signatures_of :
    {T : Type 0} → List (SignedByValidator T) → List (Bytes × ValidatorPublicKey)
signatures_of {T} = map (λ (m : SignedByValidator T). (m.signature, m.validator))

module _ (env : Env) where
  -- What `verify_quorum_certificate` answers, which depends on the stakes alone.
  unfoldable pub check_quorum_certificate :
      Staking → SignedContent → AggregateSignature → Result ConsensusError Done
  unfolding verify_quorum_signers_part_of_consensus compute_voting_power quorum
  check_quorum_certificate staking content qc =
      let members = verify_quorum_signers_part_of_consensus staking qc in
      elim (env.verify_aggregate qc (env.encode content)) [
        | none ↦ err certificate_error
        | some valid ↦
            if not members
            then err foreign_signers
            else if not valid
            then err invalid_certificate
            else if ltb (compute_voting_power staking qc.validators) (quorum staking)
            then err not_enough_power
            else ok tt
      ]

  unfoldable pub verify_quorum_certificate : SignedContent → AggregateSignature → M Done
  unfolding check_quorum_certificate
  verify_quorum_certificate content qc =
      reading (λ s. lift (check_quorum_certificate s.staking content qc))

  -- `panic!` where a bonded validator has no stake.
  unfoldable pub get_own_voting_power : M ℕ
  unfolding is_part_of_consensus get_stake
  get_own_voting_power = reading (λ s.
      if is_part_of_consensus s env.validator_pubkey
      then ok_or panicked (get_stake s.staking env.validator_pubkey)
      else pure 0)
