-- ===== src/Mempool/Blocks/Complete.antt =====
-- What a signed block holds: `build_signed_block_and_emit` of src/mempool/block_construction.rs.
use hyle.Prelude.{
  ◌≡◌, ◌≢◌, refl, sym, subst, ◌∙◌, ap, ℕ, ◌<◌, Option, none, some, List, [], ◌∷◌, ◌++◌,
  Option-cases, ok, err, Result-cases, ◌⊎◌, inl, inr, arith,
}
use hyle.Prelude.Exec.{◌>>=◌, reading, lift, pure, modify, bail, continue}
use hyle.Proposals.{DataProposalHash, LaneId, Cut}
use hyle.Mempool.{
  DataProposal, LanesStorage, BlockUnderConstruction, built_signed_block, Mempool, MempoolError,
  out_of_fuel, missing_dp,
}
use hyle.Mempool.Storage.Growing.{IsGrowing, FitsIn}
use hyle.Consensus.Checks.{CutEntry}
use hyle.Mempool.Blocks.{
  send_sync_request, between, hash_in_cut, complete_or_ask, try_get_full_data,
  build_signed_block_and_emit,
}
use hyle.Mempool.Handlers.{send}
use hyle.Mempool.Blocks.Paths.{IsPath, between-IsPath, between_ends}

-- Each lane of the cut comes with its path from the previous cut.
abbrev pub AllPaths : LanesStorage → Option Cut → Cut → List (LaneId × List DataProposal) → Type 0
AllPaths lanes from [] [] = Unit {0}
AllPaths lanes from (entry ∷ cut) (lane ∷ more) =
    (lane.0 ≡ entry.0)
    × IsPath lanes entry.0 (hash_in_cut from entry.0) entry.1 lane.1
    × AllPaths lanes from cut more
AllPaths lanes from _ _ = ⊥

abbrev pub AllGrow : LanesStorage → ℕ → Type 0
AllGrow lanes fuel = (lane_id : LaneId) → IsGrowing lanes lane_id × FitsIn lanes lane_id fuel

append_nil : {A : Type 0} (xs : List A) → xs ++ [] ≡ xs
append_nil [] = refl
append_nil (x ∷ xs) = ap (λ ys. x ∷ ys) (append_nil xs)

-- A lane of the cut that is found whole, and one that is not.
full_data-found :
    (fuel : ℕ) (from : Option Cut) (entry : CutEntry) (cut : Cut) (s : Mempool)
    (found : List DataProposal)
    → between fuel s.lanes entry.0 (hash_in_cut from entry.0) entry.1 [] ≡ ok (found, none)
    → try_get_full_data fuel from (entry ∷ cut) s
      ≡ (try_get_full_data fuel from cut >>= λ rest. pure ((entry.0, found) ∷ rest)) s
unfolding try_get_full_data ◌>>=◌ reading lift pure continue complete_or_ask
full_data-found fuel from entry cut s found f = rw f refl

full_data-missing :
    (fuel : ℕ) (from : Option Cut) (entry : CutEntry) (cut : Cut) (s : Mempool)
    (found : List DataProposal) (hash : DataProposalHash)
    → between fuel s.lanes entry.0 (hash_in_cut from entry.0) entry.1 [] ≡ ok (found, some hash)
    → (try_get_full_data fuel from (entry ∷ cut) s).0 ≡ err missing_dp
unfolding try_get_full_data ◌>>=◌ reading lift pure continue complete_or_ask send_sync_request send
    modify bail
full_data-missing fuel from entry cut s found hash f = rw f refl

full_data-fails :
    (fuel : ℕ) (from : Option Cut) (entry : CutEntry) (cut : Cut) (s : Mempool) (x : MempoolError)
    → between fuel s.lanes entry.0 (hash_in_cut from entry.0) entry.1 [] ≡ err x
    → (try_get_full_data fuel from (entry ∷ cut) s).0 ≡ err x
unfolding try_get_full_data ◌>>=◌ reading lift continue
full_data-fails fuel from entry cut s x f = rw f refl

full_data-AllPaths :
    (fuel : ℕ) (from : Option Cut) (cut : Cut) (s : Mempool)
    (dps : List (LaneId × List DataProposal))
    → (try_get_full_data fuel from cut s).0 ≡ ok dps
    → AllPaths s.lanes from cut dps × ((try_get_full_data fuel from cut s).1 ≡ s)
unfolding try_get_full_data ◌>>=◌ pure continue
full_data-AllPaths fuel from [] s [] e = (tt, refl)
full_data-AllPaths fuel from [] s (d ∷ dps) e = absurd (ground (arith, e))
full_data-AllPaths fuel from (entry ∷ cut) s dps e =
    elim (Result-cases (between fuel s.lanes entry.0 (hash_in_cut from entry.0) entry.1 [])) [
      | inr (x, f) ↦ absurd (ground (arith, e, full_data-fails fuel from entry cut s x f))
      | inl (found, f) ↦ elim (Option-cases found.1) [
        | inr (hash, m) ↦ absurd (
            ground (
              arith,
              e,
              full_data-missing fuel from entry cut s found.0 hash
                  (f ∙ ap (λ o. ok (found.0, o)) m),
            ))
        | inl m ↦
            let whole = f ∙ ap (λ o. ok (found.0, o)) m in
            let goes_on = full_data-found fuel from entry cut s found.0 whole in
            let (before, same, path) =
              between-IsPath s.lanes entry.0 fuel (hash_in_cut from entry.0) entry.1 [] found.0
                whole in
            elim (Result-cases (try_get_full_data fuel from cut s).0) [
              | inr (x, k) ↦ absurd (ground (arith, e, goes_on, k))
              | inl (rest, k) ↦
                  let (paths, kept) = full_data-AllPaths fuel from cut s rest k in
                  let result : (entry.0, found.0) ∷ rest ≡ dps = ground (arith, e, goes_on, k) in
                  (
                    subst (λ d. AllPaths s.lanes from (entry ∷ cut) d) result
                        (
                          refl,
                          subst (λ d. IsPath s.lanes entry.0 (hash_in_cut from entry.0) entry.1 d)
                              (sym (same ∙ append_nil before)) path,
                          paths,
                        ),
                    ground (arith, goes_on, k, kept),
                  )
            ]
      ]
    ]

full_data_ends :
    (fuel : ℕ) (from : Option Cut) (cut : Cut) (s : Mempool)
    → AllGrow s.lanes fuel
    → 0 < fuel
    → (try_get_full_data fuel from cut s).0 ≢ err out_of_fuel
unfolding try_get_full_data ◌>>=◌ pure continue
full_data_ends fuel from [] s grow h e = ground (arith, e)
full_data_ends fuel from (entry ∷ cut) s grow h e =
    elim (Result-cases (between fuel s.lanes entry.0 (hash_in_cut from entry.0) entry.1 [])) [
      | inr (x, f) ↦
          between_ends s.lanes entry.0 fuel (hash_in_cut from entry.0) entry.1 [] (grow entry.0).0 h
            ((grow entry.0).1 entry.1)
            (f ∙ ap err (ground (arith, e, full_data-fails fuel from entry cut s x f)))
      | inl (found, f) ↦ elim (Option-cases found.1) [
        | inr (hash, m) ↦ ground (
          arith,
          e,
          full_data-missing fuel from entry cut s found.0 hash (f ∙ ap (λ o. ok (found.0, o)) m),
        )
        | inl m ↦
            let goes_on =
              full_data-found fuel from entry cut s found.0 (f ∙ ap (λ o. ok (found.0, o)) m) in
            elim (Result-cases (try_get_full_data fuel from cut s).0) [
              | inl (rest, k) ↦ ground (arith, e, goes_on, k)
              | inr (x, k) ↦ full_data_ends fuel from cut s grow h (ground (arith, e, goes_on, k))
            ]
      ]
    ]

-- Where every lane grows and the fuel is above the sizes by two, a block is built, or this fails
-- with an error other than the fuel's. A block that is built sends, and changes nothing else, a
-- signed block with the certificate and proposal that were committed, which for each lane of the cut
-- has the data proposals from the one after that of the previous cut, or the lane's first one, up to
-- that of the cut, each the parent of the next.
pub built-AllPaths :
    (fuel : ℕ) (buc : BlockUnderConstruction) (s : Mempool)
    → AllGrow s.lanes fuel
    → 0 < fuel
    → let (result, s') = build_signed_block_and_emit fuel buc s in
      let ccp = buc.ccp in
      ((result ≡ ok tt)
        × ((dps : List (LaneId × List DataProposal)) × AllPaths s.lanes buc.from
              ccp.consensus_proposal.cut dps
            × (s' ≡ record s {
              outputs =
                  s.outputs ++ built_signed_block dps ccp.certificate ccp.consensus_proposal ∷ [];
            })))
      ⊎ ((x : MempoolError) × (result ≡ err x) × (x ≢ out_of_fuel))
unfolding build_signed_block_and_emit ◌>>=◌ send modify continue
built-AllPaths fuel buc s grow h =
    elim (Result-cases (try_get_full_data fuel buc.from buc.ccp.consensus_proposal.cut s).0) [
      | inr (x, k) ↦ inr (
        x,
        ground (arith, k),
        λ same.
            full_data_ends fuel buc.from buc.ccp.consensus_proposal.cut s grow h (k ∙ ap err same),
      )
      | inl (dps, k) ↦
          let (paths, kept) =
            full_data-AllPaths fuel buc.from buc.ccp.consensus_proposal.cut s dps k in
          inl (ground (arith, k), (dps, paths, ground (arith, k, kept)))
    ]
