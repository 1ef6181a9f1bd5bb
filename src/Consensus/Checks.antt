-- ===== src/Consensus/Checks.antt =====
-- What a follower checks of a proposal: `verify_poda`, `verify_timestamp` and
-- `verify_staking_actions` of src/consensus/role_follower.rs.
use hyle.Prelude.{
  not, ◌+◌, ◌*◌, ◌%◌, Bool, ◌&&◌, none, some, List, [], ◌∷◌, if◌then◌else◌, all, any, find, retain,
  ltb, leb, nat_eq, Result, ok, err,
}
use hyle.Prelude.Exec.{Done, pure, bail, lift, reading, ok_or, modify, require, ◌>>=◌, ◌>>◌}
use hyle.Prelude.Key.{◌==◌, string_key}
use hyle.Prelude.Word.{u32_mod, add_u128}
use hyle.Model.{bytes_key}
use hyle.Contracts.Staking.{
  Staking, is_known, get_stake, min_stake, compute_voting_power, compute_f,
}
use hyle.Proposals.{
  View, TimestampMs, LaneId, LaneBytesSize, DataProposalHash, PoDa, Cut, SignedByValidator,
  ValidatorCandidacy, ConsensusStakingAction, bonds, pays_fees_for_dadi, ConsensusProposal,
}
use hyle.Consensus.Messages.{poda_content, candidacy_content}
use hyle.Consensus.{
  Env, full, monotonic, no_check, ConsensusError, missing_lane, unknown_lane, size_not_growing,
  poda_without_power, invalid_poda, crypto_error, timestamp_too_old, timestamp_too_late,
  malformed_dadi_fees, not_enough_stake, not_staking, not_signed, M, connect_to,
}
use hyle.Consensus.Round.{send}

abbrev pub CutEntry : Type 0
CutEntry = LaneId × DataProposalHash × LaneBytesSize × PoDa

-- `previous.iter().any(|lane| !cut.contains(lane))`
unfoldable pub keeps_lanes : Cut → Cut → Bool
keeps_lanes previous cut =
    all (λ (old : CutEntry). any (λ (new : CutEntry). new.0 == old.0) cut) previous

module _ (env : Env) where
  -- The signatures of an entry that is not in the previous cut.
  unfoldable pub verify_new_entry : Staking → CutEntry → Result ConsensusError Done
  unfolding compute_voting_power compute_f
  verify_new_entry staking entry =
      if ltb (compute_voting_power staking entry.3.validators) (add_u128 (compute_f staking) 1)
      then err poda_without_power
      else elim (env.verify_aggregate entry.3 (env.encode (poda_content entry.1 entry.2))) [
        | none ↦ err crypto_error
        | some valid ↦ if valid then ok tt else err invalid_poda
      ]

  unfoldable pub verify_entry : Staking → Cut → CutEntry → Result ConsensusError Done
  unfolding verify_new_entry is_known
  verify_entry staking parent_cut entry =
      if not (is_known staking entry.0)
      then err unknown_lane
      else elim (find (λ (old : CutEntry). old.0 == entry.0) parent_cut) [
        | none ↦ verify_new_entry staking entry
        | some old ↦
            if old.1 == entry.1
            then ok tt
            else if leb entry.2 old.2
            then err size_not_growing
            else verify_new_entry staking entry
      ]

  unfoldable pub verify_entries : Staking → Cut → Cut → Result ConsensusError Done
  unfolding verify_entry
  verify_entries staking parent_cut [] = ok tt
  verify_entries staking parent_cut (entry ∷ more) = elim (verify_entry staking parent_cut entry) [
    | err e ↦ err e
    | ok done ↦ verify_entries staking parent_cut more
  ]

  unfoldable pub verify_poda : Staking → Cut → ConsensusProposal → Result ConsensusError Done
  unfolding verify_entries keeps_lanes
  verify_poda staking parent_cut cp =
      if not (keeps_lanes parent_cut cp.cut)
      then err missing_lane
      else verify_entries staking parent_cut cp.cut

  abbrev monotonic_check : TimestampMs → TimestampMs → Result ConsensusError Done
  monotonic_check previous timestamp =
      if leb timestamp previous then err timestamp_too_old else ok tt

  -- The durations are added and multiplied as numbers; the view is cast to a `u32`.
  unfoldable pub verify_timestamp :
      TimestampMs → View → ConsensusProposal → Result ConsensusError Done
  verify_timestamp previous view cp =
      if nat_eq previous 0 then ok tt else elim env.timestamp_checks [
        | no_check ↦ ok tt
        | monotonic ↦ monotonic_check previous cp.timestamp
        | full ↦
            if leb cp.timestamp previous
            then err timestamp_too_old
            else if ltb (previous + (env.slot_duration * 2 + env.timeout_after * (view % u32_mod)))
                cp.timestamp
            then err timestamp_too_late
            else ok tt
      ]

  unfoldable pub verify_dadi_fees : Cut → LaneId → LaneBytesSize → Result ConsensusError Done
  verify_dadi_fees cut lane_id cumul_size =
      if any (λ (entry : CutEntry). entry.0 == lane_id && nat_eq entry.2 cumul_size) cut
      then ok tt
      else err malformed_dadi_fees

  unfoldable pub verify_new_validators_to_bond : SignedByValidator ValidatorCandidacy → M Done
  unfolding get_stake send
  verify_new_validators_to_bond new = reading (λ s. elim (get_stake s.staking new.validator) [
    | none ↦ bail not_staking
    | some staked ↦ if ltb staked min_stake then bail not_enough_stake else (do
      valid ←
          ok_or crypto_error
            (env.verify new.signature new.validator (env.encode (candidacy_content new.msg)))
      require valid not_signed
      modify (λ t. record t {
        validator_candidates =
            retain (λ v. not (v.validator == new.validator)) t.validator_candidates;
      })
      send (connect_to new.msg.peer_address))
  ])

  unfoldable pub verify_staking_actions : Cut → List ConsensusStakingAction → M Done
  unfolding verify_new_validators_to_bond verify_dadi_fees
  verify_staking_actions cut [] = pure tt
  verify_staking_actions cut (bonds candidate ∷ more) = do
    verify_new_validators_to_bond candidate
    verify_staking_actions cut more
  verify_staking_actions cut (pays_fees_for_dadi lane_id cumul_size ∷ more) = do
    lift (verify_dadi_fees cut lane_id cumul_size)
    verify_staking_actions cut more
