-- ===== src/Mempool/Storage/Growing.antt =====
-- Lanes that end: the entries of src/mempool/storage.rs get smaller from child to parent.
use hyle.Prelude.{◌≡◌, ℕ, ◌+◌, ◌<◌, some, Option-cases, ok, err, inl, inr, arith}
use hyle.Prelude.Key.{string_key}
use hyle.Prelude.Map.{lookup}
use hyle.Model.{bytes_key}
use hyle.Proposals.{DataProposalHash, LaneId}
use hyle.Mempool.{LaneEntryMetadata, LanesStorage, MempoolError, unknown_lane}
use hyle.Mempool.Storage.{get_metadata_by_hash, get_dp_by_hash}

module _ (lanes : LanesStorage) (lane_id : LaneId) where
  -- A data proposal's cumulated size is above that of its parent.
  abbrev pub IsGrowing : Type 0
  IsGrowing =
      (hash parent : DataProposalHash) (le le' : LaneEntryMetadata)
      → get_metadata_by_hash lanes lane_id hash ≡ ok (some le)
      → le.parent_data_proposal_hash ≡ some parent
      → get_metadata_by_hash lanes lane_id parent ≡ ok (some le')
      → le'.cumul_size < le.cumul_size

  -- Every entry's cumulated size, and one, is below the fuel.
  abbrev pub FitsIn : ℕ → Type 0
  FitsIn fuel =
      (hash : DataProposalHash) (le : LaneEntryMetadata)
      → get_metadata_by_hash lanes lane_id hash ≡ ok (some le)
      → le.cumul_size + 1 < fuel

  pub metadata-unknown :
      (hash : DataProposalHash) (x : MempoolError)
      → get_metadata_by_hash lanes lane_id hash ≡ err x
      → x ≡ unknown_lane
  unfolding get_metadata_by_hash
  metadata-unknown hash x e = elim (Option-cases (lookup lane_id lanes.by_hash)) [
    | inl n ↦ ground (arith, e, n)
    | inr (lane, n) ↦ absurd (ground (arith, e, n))
  ]

  pub dp-unknown :
      (hash : DataProposalHash) (x : MempoolError)
      → get_dp_by_hash lanes lane_id hash ≡ err x
      → x ≡ unknown_lane
  unfolding get_dp_by_hash
  dp-unknown hash x e = elim (Option-cases (lookup lane_id lanes.by_hash)) [
    | inl n ↦ ground (arith, e, n)
    | inr (lane, n) ↦ absurd (ground (arith, e, n))
  ]
