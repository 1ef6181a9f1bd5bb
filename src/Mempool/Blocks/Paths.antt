-- ===== src/Mempool/Blocks/Paths.antt =====
-- The data of a signed block: the walk of src/mempool/block_construction.rs over the entries of
-- src/mempool/storage.rs.
use hyle.Prelude.{
  ◌≡◌, ◌≢◌, refl, sym, ◌∙◌, ap, ℕ, ◌+◌, ◌<◌, zero, suc, true, Option, none, some, List, [], ◌∷◌,
  ◌++◌, Option-cases, Bool-cases, ok, err, Result-cases, inl, inr, arith,
}
use hyle.Prelude.Key.{string_key}
use hyle.Proposals.{DataProposalHash, LaneId}
use hyle.Mempool.{DataProposal, LaneEntryMetadata, LanesStorage, out_of_fuel}
use hyle.Mempool.Storage.{get_metadata_by_hash, get_dp_by_hash, hash_eq}
use hyle.Mempool.Storage.Growing.{IsGrowing, metadata-unknown, dp-unknown}
use hyle.Mempool.Blocks.{between}

module _ (lanes : LanesStorage) (lane_id : LaneId) where
  -- `IsPath from hash dps`: the entries of the lane from the one after `from`, or from its first
  -- one, up to `hash` hold `dps`, each entry the parent of the next.
  pub data IsPath (from : Option DataProposalHash)
      : DataProposalHash → List DataProposal → Type 0 where
    at_start : {hash : DataProposalHash} → hash_eq (some hash) from ≡ true → IsPath from hash []
    first :
        {hash : DataProposalHash} {le : LaneEntryMetadata} {dp : DataProposal}
        → get_metadata_by_hash lanes lane_id hash ≡ ok (some le)
        → get_dp_by_hash lanes lane_id hash ≡ ok (some dp)
        → le.parent_data_proposal_hash ≡ none
        → IsPath from hash (dp ∷ [])
    next :
        {hash parent : DataProposalHash} {le : LaneEntryMetadata} {dp : DataProposal}
        {dps : List DataProposal}
        → get_metadata_by_hash lanes lane_id hash ≡ ok (some le)
        → get_dp_by_hash lanes lane_id hash ≡ ok (some dp)
        → le.parent_data_proposal_hash ≡ some parent
        → IsPath from parent dps
        → IsPath from hash (dps ++ dp ∷ [])

  append_later :
      (before : List DataProposal) (dp : DataProposal) (later : List DataProposal)
      → (before ++ dp ∷ []) ++ later ≡ before ++ dp ∷ later
  append_later [] dp later = refl
  append_later (b ∷ before) dp later = ap (λ ds. b ∷ ds) (append_later before dp later)

  pub between-IsPath :
      (fuel : ℕ) (from : Option DataProposalHash) (hash : DataProposalHash)
      (later dps : List DataProposal)
      → between fuel lanes lane_id from hash later ≡ ok (dps, none)
      → (before : List DataProposal) × (dps ≡ before ++ later) × IsPath from hash before
  unfolding between
  between-IsPath zero from hash later dps e = absurd (ground (arith, e))
  between-IsPath (suc fuel) from hash later dps e = elim (Bool-cases (hash_eq (some hash) from)) [
    | inl start ↦ ([], ground (arith, e, start), at_start start)
    | inr further ↦ elim (Result-cases (get_metadata_by_hash lanes lane_id hash)) [
      | inr (x, f) ↦ absurd (ground (arith, e, further, f))
      | inl (found, f) ↦ elim (Option-cases found) [
        | inl g ↦ absurd (ground (arith, e, further, f, g))
        | inr (le, g) ↦ elim (Result-cases (get_dp_by_hash lanes lane_id hash)) [
          | inr (x, k) ↦ absurd (ground (arith, e, further, f, g, k))
          | inl (stored, k) ↦ elim (Option-cases stored) [
            | inl d ↦ absurd (ground (arith, e, further, f, g, k, d))
            | inr (dp, d) ↦ elim (Option-cases le.parent_data_proposal_hash) [
              | inl p ↦ (
                dp ∷ [],
                ground (arith, e, further, f, g, k, d, p),
                first (f ∙ ap ok g) (k ∙ ap ok d) p,
              )
              | inr (parent, p) ↦
                  let (before, same, path) =
                    between-IsPath fuel from parent (dp ∷ later) dps
                      (ground (arith, e, further, f, g, k, d, p)) in
                  (
                    before ++ dp ∷ [],
                    same ∙ sym (append_later before dp later),
                    next (f ∙ ap ok g) (k ∙ ap ok d) p path,
                  )
            ]
          ]
        ]
      ]
    ]
  ]

  pub between_ends :
      (fuel : ℕ) (from : Option DataProposalHash) (hash : DataProposalHash)
      (later : List DataProposal)
      → IsGrowing lanes lane_id
      → 0 < fuel
      → ((le : LaneEntryMetadata)
          → get_metadata_by_hash lanes lane_id hash ≡ ok (some le)
          → le.cumul_size + 1 < fuel)
      → between fuel lanes lane_id from hash later ≢ err out_of_fuel
  unfolding between
  between_ends zero from hash later growing h bound e = ground (arith, h)
  between_ends (suc fuel) from hash later growing h bound e =
      elim (Bool-cases (hash_eq (some hash) from)) [
        | inl start ↦ ground (arith, e, start)
        | inr further ↦ elim (Result-cases (get_metadata_by_hash lanes lane_id hash)) [
          | inr (x, f) ↦ ground (arith, e, further, f, metadata-unknown lanes lane_id hash x f)
          | inl (found, f) ↦ elim (Option-cases found) [
            | inl g ↦ ground (arith, e, further, f, g)
            | inr (le, g) ↦ elim (Result-cases (get_dp_by_hash lanes lane_id hash)) [
              | inr (x, k) ↦ ground (arith, e, further, f, g, k, dp-unknown lanes lane_id hash x k)
              | inl (stored, k) ↦ elim (Option-cases stored) [
                | inl d ↦ ground (arith, e, further, f, g, k, d)
                | inr (dp, d) ↦ elim (Option-cases le.parent_data_proposal_hash) [
                  | inl p ↦ ground (arith, e, further, f, g, k, d, p)
                  | inr (parent, p) ↦
                      let here = f ∙ ap ok g in
                      between_ends fuel from parent (dp ∷ later) growing
                        (omega (arith, bound le here))
                        (λ le' there.
                          omega (arith, bound le here, growing hash parent le le' here p there))
                        (ground (arith, e, further, f, g, k, d, p))
                ]
              ]
            ]
          ]
        ]
      ]
