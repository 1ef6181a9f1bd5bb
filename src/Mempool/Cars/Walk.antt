-- ===== src/Mempool/Cars/Walk.antt =====
-- What a car is: `get_latest_car` of src/mempool/storage.rs.
use hyle.Prelude.{
  ◌≡◌, refl, sym, subst, ◌∙◌, ap, ℕ, ◌+◌, ◌≤◌, ◌<◌, zero, suc, true, Option, none, some, map,
  Option-cases, Bool-cases, ok, err, Result-cases, ◌⊎◌, inl, inr, arith,
}
use hyle.Prelude.Key.{string_key, key_eq}
use hyle.Prelude.Word.{add_u128}
use hyle.Model.{bytes_key}
use hyle.Contracts.Staking.{Staking, compute_voting_power, compute_f}
use hyle.Proposals.{DataProposalHash, LaneId}
use hyle.Consensus.Checks.{CutEntry}
use hyle.Mempool.{
  ValidatorDag, LaneEntryMetadata, LanesStorage, MempoolEnv, MempoolError, unknown_lane,
}
use hyle.Mempool.Storage.{get_metadata_by_hash, get_lane_hash_tip}
use hyle.Mempool.Storage.Growing.{IsGrowing, FitsIn, metadata-unknown}
use hyle.Mempool.Cars.{
  Car, bonded_signatures, has_enough_votes, committed_car, signed_car, walk_lane, get_latest_car,
}

module _ (env : MempoolEnv) (lanes : LanesStorage) (lane_id : LaneId) (staking : Staking) where
  -- The entry is in the lane with the size that the car gives; the car is that of the previous cut, or
  -- bonded validators with more than f of the power have signed the entry, and their signatures are
  -- aggregated in the car.
  abbrev pub IsVoted : Option CutEntry → Car → Type 0
  IsVoted previous car =
      (le : LaneEntryMetadata) × (get_metadata_by_hash lanes lane_id car.0 ≡ ok (some le))
      × (car.1 ≡ le.cumul_size)
      × ((committed_car previous car.0 le ≡ some car)
          ⊎ ((add_u128 (compute_f staking) 1
                ≤ compute_voting_power staking
                    (map (λ (s : ValidatorDag). s.validator) (bonded_signatures staking le)))
              × (env.aggregate (car.0, le.cumul_size) (bonded_signatures staking le) ≡ some car.2)))

  committed-IsVoted :
      (previous : Option CutEntry) (hash : DataProposalHash) (le : LaneEntryMetadata) (car : Car)
      → get_metadata_by_hash lanes lane_id hash ≡ ok (some le)
      → committed_car previous hash le ≡ some car
      → IsVoted previous car
  unfolding committed_car
  committed-IsVoted none hash le car f e = absurd (ground (arith, e))
  committed-IsVoted (some p) hash le car f e =
      let same : car.0 ≡ hash = ground (arith, e, key_eq hash p.1) in
      (
        le,
        subst (λ h. get_metadata_by_hash lanes lane_id h ≡ ok (some le)) (sym same) f,
        ground (arith, e),
        inl (subst (λ h. committed_car (some p) h le ≡ some car) (sym same) e),
      )

  signed-IsVoted :
      (previous : Option CutEntry) (hash : DataProposalHash) (le : LaneEntryMetadata) (car : Car)
      → get_metadata_by_hash lanes lane_id hash ≡ ok (some le)
      → has_enough_votes staking le ≡ true
      → signed_car env staking hash le ≡ some car
      → IsVoted previous car
  unfolding has_enough_votes signed_car
  signed-IsVoted previous hash le car f votes e =
      elim (Option-cases (env.aggregate (hash, le.cumul_size) (bonded_signatures staking le))) [
        | inl n ↦ absurd (ground (arith, n, e))
        | inr (poda, g) ↦
            let same : (hash, le.cumul_size, poda) ≡ car = ground (arith, g, e) in
            subst (λ c. IsVoted previous c) same (le, f, refl, inr (ground (arith, votes), g))
      ]

  walk-IsVoted :
      (fuel : ℕ) (previous : Option CutEntry) (hash : DataProposalHash) (car : Car)
      → walk_lane env fuel lanes lane_id staking previous hash ≡ ok (some car)
      → IsVoted previous car
  unfolding walk_lane
  walk-IsVoted zero previous hash car e = absurd (ground (arith, e))
  walk-IsVoted (suc fuel) previous hash car e =
      elim (Result-cases (get_metadata_by_hash lanes lane_id hash)) [
        | inr (x, f) ↦ absurd (ground (arith, e, f))
        | inl (found, f) ↦ elim (Option-cases found) [
          | inl g ↦ absurd (ground (arith, e, f, g))
          | inr (le, g) ↦
              let here = f ∙ ap ok g in
              elim (Option-cases (committed_car previous hash le)) [
                | inr (c, k) ↦
                    committed-IsVoted previous hash le car here (ground (arith, e, here, k))
                | inl k ↦ elim (Bool-cases (has_enough_votes staking le)) [
                  | inl votes ↦
                      signed-IsVoted previous hash le car here votes
                        (ground (arith, e, here, k, votes))
                  | inr few ↦ elim (Option-cases le.parent_data_proposal_hash) [
                    | inl p ↦ absurd (ground (arith, e, here, k, few, p))
                    | inr (parent, p) ↦
                        walk-IsVoted fuel previous parent car (ground (arith, e, here, k, few, p))
                  ]
                ]
              ]
        ]
      ]

  walk_fails :
      (fuel : ℕ) (previous : Option CutEntry) (hash : DataProposalHash)
      → IsGrowing lanes lane_id
      → 0 < fuel
      → ((le : LaneEntryMetadata)
          → get_metadata_by_hash lanes lane_id hash ≡ ok (some le)
          → le.cumul_size + 1 < fuel)
      → (x : MempoolError) → walk_lane env fuel lanes lane_id staking previous hash ≡ err x
      → x ≡ unknown_lane
  unfolding walk_lane
  walk_fails zero previous hash growing h bound x e = absurd (ground (arith, h))
  walk_fails (suc fuel) previous hash growing h bound x e =
      elim (Result-cases (get_metadata_by_hash lanes lane_id hash)) [
        | inr (y, f) ↦ ground (arith, e, f, metadata-unknown lanes lane_id hash y f)
        | inl (found, f) ↦ elim (Option-cases found) [
          | inl g ↦ absurd (ground (arith, e, f, g))
          | inr (le, g) ↦
              let here = f ∙ ap ok g in
              elim (Option-cases (committed_car previous hash le)) [
                | inr (c, k) ↦ absurd (ground (arith, e, here, k))
                | inl k ↦ elim (Bool-cases (has_enough_votes staking le)) [
                  | inl votes ↦ absurd (ground (arith, e, here, k, votes))
                  | inr few ↦ elim (Option-cases le.parent_data_proposal_hash) [
                    | inl p ↦ absurd (ground (arith, e, here, k, few, p))
                    | inr (parent, p) ↦
                        walk_fails fuel previous parent growing (omega (arith, bound le here))
                          (λ le' there.
                            omega (arith, bound le here, growing hash parent le le' here p there))
                          x (ground (arith, e, here, k, few, p))
                  ]
                ]
              ]
        ]
      ]

  -- In a lane where each data proposal is larger than its parent, and with fuel above the sizes by
  -- two, there is a car, or there is none, or the lane is not known. A car is in the lane with its
  -- size, and it is that of the previous cut, or bonded validators with more than f of the power have
  -- signed it and it has their signatures.
  pub latest_car-IsVoted :
      (fuel : ℕ) (previous : Option CutEntry)
      → IsGrowing lanes lane_id
      → FitsIn lanes lane_id fuel
      → 0 < fuel
      → let result = get_latest_car env fuel lanes lane_id staking previous in
        ((car : Car) × (result ≡ ok (some car)) × IsVoted previous car)
        ⊎ (result ≡ ok none)
        ⊎ (result ≡ err unknown_lane)
  unfolding get_latest_car
  latest_car-IsVoted fuel previous growing fits positive =
      elim (Option-cases (get_lane_hash_tip lanes lane_id)) [
        | inl n ↦ inr (inl (ground (arith, n)))
        | inr (tip, t) ↦
            elim (Result-cases (walk_lane env fuel lanes lane_id staking previous tip)) [
              | inl (found, r) ↦ elim (Option-cases found) [
                | inl g ↦ inr (inl (ground (arith, t, r, g)))
                | inr (car, g) ↦
                    inl (
                      car,
                      ground (arith, t, r, g),
                      walk-IsVoted fuel previous tip car (r ∙ ap ok g),
                    )
              ]
              | inr (x, r) ↦ inr (
                  inr (
                    ground
                      (arith, t, r, walk_fails fuel previous tip growing positive (fits tip) x r)))
            ]
      ]
