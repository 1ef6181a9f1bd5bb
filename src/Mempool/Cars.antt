-- ===== src/Mempool/Cars.antt =====
-- The cut that a mempool proposes: `get_latest_car` of src/mempool/storage.rs and
-- `handle_querynewcut` of src/mempool.rs. The walk down a lane has fuel: Cars/Walk says how much is
-- enough.
pub mod Walk
use hyle.Prelude.{
  ◌+◌, ℕ, zero, suc, Bool, true, false, Option, none, some, List, [], ◌∷◌, ◌++◌, map, if◌then◌else◌,
  ltb, find, retain, Result, ok, err, unwrap_or,
}
use hyle.Prelude.Key.{◌==◌, string_key}
use hyle.Prelude.Sets.{mem}
use hyle.Prelude.Word.{add_u128}
use hyle.Model.{bytes_key}
use hyle.Contracts.Staking.{Staking, compute_voting_power, compute_f}
use hyle.Proposals.{DataProposalHash, LaneId, LaneBytesSize, PoDa, Cut}
use hyle.Consensus.Checks.{CutEntry}
use hyle.Mempool.{
  ValidatorDag, LaneEntryMetadata, LanesStorage, MempoolEnv, MempoolError, out_of_fuel, Mempool,
}
use hyle.Mempool.Storage.{get_metadata_by_hash, get_lane_hash_tip, get_lane_ids}

-- A data proposal that enough validators have, its lane's size and their signatures.
abbrev pub Car : Type 0
Car = DataProposalHash × LaneBytesSize × PoDa

abbrev pub bonded_signatures : Staking → LaneEntryMetadata → List ValidatorDag
bonded_signatures staking le =
    retain (λ (s : ValidatorDag). mem s.validator staking.bonded) le.signatures

unfoldable pub has_enough_votes : Staking → LaneEntryMetadata → Bool
unfolding mem compute_voting_power compute_f
has_enough_votes staking le =
    let voters = map (λ (s : ValidatorDag). s.validator) (bonded_signatures staking le) in
    if ltb (compute_voting_power staking voters) (add_u128 (compute_f staking) 1)
    then false
    else true

-- The car of the previous cut, if this is its data proposal.
unfoldable pub committed_car : Option CutEntry → DataProposalHash → LaneEntryMetadata → Option Car
committed_car none hash le = none
committed_car (some previous) hash le =
    if hash == previous.1 then some (previous.1, le.cumul_size, previous.3) else none

module _ (env : MempoolEnv) where
  unfoldable pub signed_car : Staking → DataProposalHash → LaneEntryMetadata → Option Car
  unfolding mem
  signed_car staking hash le =
      elim (env.aggregate (hash, le.cumul_size) (bonded_signatures staking le)) [
        | none ↦ none
        | some poda ↦ some (hash, le.cumul_size, poda)
      ]

  -- The loop of `get_latest_car`.
  unfoldable pub walk_lane :
      ℕ
      → LanesStorage
      → LaneId
      → Staking
      → Option CutEntry
      → DataProposalHash
      → Result MempoolError (Option Car)
  unfolding get_metadata_by_hash committed_car has_enough_votes signed_car
  walk_lane zero lanes lane_id staking previous hash = err out_of_fuel
  walk_lane (suc fuel) lanes lane_id staking previous hash =
      elim (get_metadata_by_hash lanes lane_id hash) [
        | err e ↦ err e
        | ok found ↦ elim found [
          | none ↦ ok none
          | some le ↦ elim (committed_car previous hash le) [
            | some car ↦ ok (some car)
            | none ↦ elim (has_enough_votes staking le) [
              | true ↦ ok (signed_car staking hash le)
              | false ↦ elim le.parent_data_proposal_hash [
                | none ↦ ok none
                | some parent ↦ walk_lane fuel lanes lane_id staking previous parent
              ]
            ]
          ]
        ]
      ]

  unfoldable pub get_latest_car :
      ℕ → LanesStorage → LaneId → Staking → Option CutEntry → Result MempoolError (Option Car)
  unfolding get_lane_hash_tip walk_lane
  get_latest_car fuel lanes lane_id staking previous = elim (get_lane_hash_tip lanes lane_id) [
    | none ↦ ok none
    | some tip ↦ walk_lane fuel lanes lane_id staking previous tip
  ]

  -- The entry of a lane in the new cut.
  unfoldable pub cut_entry : LaneId → Option CutEntry → Option Car → Cut
  cut_entry lane_id previous (some car) = (lane_id, car.0, car.1, car.2) ∷ []
  cut_entry lane_id none none = []
  cut_entry lane_id (some entry) none = entry ∷ []

  unfoldable pub collect_cut :
      ℕ → LanesStorage → Staking → Cut → List LaneId → Result MempoolError Cut
  unfolding get_latest_car cut_entry
  collect_cut fuel lanes staking previous_cut [] = ok []
  collect_cut fuel lanes staking previous_cut (lane_id ∷ more) =
      let previous = find (λ (entry : CutEntry). entry.0 == lane_id) previous_cut in
      let rest = collect_cut fuel lanes staking previous_cut more in
      elim (get_latest_car fuel lanes lane_id staking previous) [
        | err e ↦ err e
        | ok car ↦ elim rest [ err e ↦ err e | ok cut ↦ ok (cut_entry lane_id previous car ++ cut) ]
      ]

  unfoldable pub handle_querynewcut : ℕ → Staking → Mempool → Result MempoolError Cut
  unfolding collect_cut
  handle_querynewcut fuel staking s =
      let previous : Cut = elim s.last_ccp [ none ↦ [] | some ccp ↦ ccp.consensus_proposal.cut ] in
      collect_cut fuel s.lanes staking previous (get_lane_ids s.lanes)
